-- ===== src/Rx/Response.antt =====
-- Class `Response` and its subclasses (lib/js-rx-util/lib/response.js): an HTTP status with a body
-- and headers. Which subclass a value has is read off its status, as `Response.of` does.
pub mod Laws
pub mod Headers
use amrc_connectivity_stack.Prelude.{
  ℕ, ◌+◌, ◌≡◌, refl, Bool, true, false, ◌&&◌, ◌||◌, List, [], ◌∷◌, Option, none, some, String,
  if◌then◌else◌, ◌==◌, nat_eq, list_eq, string_eq, leb, ltb, filter, has, length,
}
use amrc_connectivity_stack.Text.{Text, codes}

-- A header name is ASCII, and so is what `toLowerCase` is modelled on.
abbrev lower : ℕ → ℕ
lower c = if leb b'A' c && leb c b'Z' then c + 32 else c

unfoldable pub to_lower_case : Text → Text
to_lower_case [] = []
to_lower_case (c ∷ s) = lower c ∷ to_lower_case s

pub record Header : Type 0 where
  pub key : Text
  pub value : String

-- `"cache-control content-type etag".split()`: with no separator the array has the whole string.
abbrev pub known_headers : List Text
known_headers = codes "cache-control content-type etag" ∷ []

lower_keys : List Header → List Header
lower_keys [] = []
lower_keys (h ∷ hs) = record h { key = to_lower_case h.key } ∷ lower_keys hs

-- `toMap()`: a later entry of a key takes the place of an earlier one.
insert_header : Header → List Header → List Header
insert_header h [] = h ∷ []
insert_header h (j ∷ hs) = if h.key == j.key then h ∷ hs else j ∷ insert_header h hs

to_map_onto : List Header → List Header → List Header
to_map_onto m [] = m
to_map_onto m (h ∷ hs) = to_map_onto (insert_header h m) hs

-- What the constructor makes of the headers that it is given.
unfoldable pub known : List Header → List Header
unfolding to_lower_case lower_keys insert_header to_map_onto
known hs = to_map_onto [] (filter (λ h. has h.key known_headers) (lower_keys hs))

-- A body of `undefined` is `none`.
-- Bodies are JavaScript values, of one type `B`.
pub record Response (B : Type 0) : Type 0 where
  pub status : ℕ
  pub body : Option B
  pub headers : List Header

pub data Kind : Type 0 where
  success empty failure : Kind

-- The class that `Response.of` chooses.
unfoldable pub kind_of : ℕ → Kind
kind_of status =
    if status == 404 then empty else if leb 200 status && ltb status 300 then success else failure

-- The object of a notify/v2 update, with the fields of its response.
pub record Update (B : Type 0) : Type 0 where
  pub update_status : ℕ
  pub response_status : ℕ
  pub response_headers : List Header
  pub response_body : Option B

-- What a method that may throw does: it returns a value, or throws an `HTTPError` with a status.
pub data Outcome (A : Type 0) : Type 0 where
  returns : A → Outcome A
  http_error : ℕ → Outcome A

-- `f?.(x)` and `f ?? e`
abbrev call {ℓ} : {R : Type ℓ} → Option (ℕ → R) → ℕ → Option R
call none st = none
call (some f) st = some (f st)

abbrev first_given {ℓ} : {F : Type ℓ} → Option F → Option F → Option F
first_given none e = e
first_given (some f) e = some f

module _ {B : Type 0} where
  -- The static method `of`.
  unfoldable pub response : ℕ → Option B → List Header → Response B
  response status body headers = record { status = status; body = body; headers = known headers }

  abbrev pub kind : Response B → Kind
  kind r = kind_of r.status

  unfoldable pub ok : Option B → Response B
  unfolding response
  ok body = response 200 body []

  unfoldable pub empty_response : Response B
  unfolding response
  empty_response = response 404 none []

  unfoldable pub error : Option B → Response B
  unfolding response
  error body = response 500 body []

  unfoldable pub of_nullable : Option B → Response B
  unfolding ok empty_response
  of_nullable none = empty_response
  of_nullable (some v) = ok (some v)

  unfoldable pub is_ok : Response B → Bool
  is_ok r = elim (kind r) [ success ↦ true | _ ↦ false ]

  unfoldable pub is_empty : Response B → Bool
  is_empty r = elim (kind r) [ empty ↦ true | _ ↦ false ]

  unfoldable pub is_error : Response B → Bool
  is_error r = elim (kind r) [ failure ↦ true | _ ↦ false ]

  unfoldable pub with_status : Response B → ℕ → Response B
  unfolding response
  with_status r st = response st r.body r.headers

  unfoldable pub or_else_response : Response B → Response B → Response B
  or_else_response r other = elim (kind r) [ empty ↦ other | _ ↦ r ]

  unfoldable pub throw_if_error : Response B → Outcome (Unit {0})
  throw_if_error r = elim (kind r) [ failure ↦ http_error r.status | _ ↦ returns tt ]

  unfoldable pub get : Response B → Outcome (Option B)
  get r = elim (kind r) [
    | success ↦ returns r.body
    | empty ↦ returns none
    | failure ↦ http_error r.status
  ]

  unfoldable pub or_else : Response B → Option B → Outcome (Option B)
  or_else r v = elim (kind r) [
    | success ↦ returns r.body
    | empty ↦ returns v
    | failure ↦ http_error r.status
  ]

  unfoldable pub with_body : Response B → Option B → Option ℕ → Response B
  unfolding response
  with_body r body none = response r.status body r.headers
  with_body r body (some st) = response st body r.headers

  unfoldable pub flat_map : Response B → (Option B → Response B) → Response B
  flat_map r f = elim (kind r) [ success ↦ f r.body | _ ↦ r ]

  -- `or`, whose function takes nothing
  unfoldable pub or_with : Response B → ℕ → Option B → Response B
  unfolding or_else_response with_body
  or_with r st body = or_else_response r (with_body r body (some st))

  unfoldable pub filter_body : Response B → (Option B → Bool) → Response B
  unfolding flat_map empty_response
  filter_body r pred = flat_map r (λ b. if pred b then r else empty_response)

  unfoldable pub assert_body : Response B → (Option B → Bool) → Option B → Response B
  unfolding flat_map error
  assert_body r pred msg = flat_map r (λ b. if pred b then r else error msg)

  unfoldable pub map_body : Response B → (Option B → Option B) → Response B
  unfolding flat_map with_body
  map_body r f = flat_map r (λ b. with_body r (f b) none)

  -- `single`, where `items` reads the body as an array.
  unfoldable pub single : (Option B → List B) → Response B → Option B → Response B
  unfolding flat_map with_body error
  single items r msg = flat_map r (λ b. elim (items b) [
    | [] ↦ error msg
    | x ∷ rest ↦ elim rest [ [] ↦ with_body r (some x) none | _ ∷ _ ↦ error msg ]
  ])

  -- `success` is given the body, `empty` and `failure` the status; a missing callback is `none`,
  -- and the result is then undefined.
  unfoldable pub if_ok {ℓ} :
      {R : Type ℓ} → Response B → (Option B → R) → Option (ℕ → R) → Option (ℕ → R) → Option R
  if_ok r s e f = elim (kind r) [
    | success ↦ some (s r.body)
    | empty ↦ call e r.status
    | failure ↦ call (first_given f e) r.status
  ]

  unfoldable pub to_update : Response B → ℕ → Update B
  to_update r ix = record {
    update_status = if ix == 0 then 201 else 200;
    response_status = r.status;
    response_headers = r.headers;
    response_body = r.body;
  }

  -- `none` is the `RangeError`.
  unfoldable pub of_update : Update B → Option (Response B)
  unfolding response
  of_update u =
      if ltb 299 u.update_status
      then none
      else some (response u.response_status u.response_body u.response_headers)
