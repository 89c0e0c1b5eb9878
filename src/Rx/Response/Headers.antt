-- ===== src/Rx/Response/Headers.antt =====
-- What the constructor keeps of the headers.
use mathlib.Core.Path.{subst}
use amrc_connectivity_stack.Prelude.{
  ℕ, ◌≡◌, ◌≢◌, ◌⊎◌, refl, sym, ap, true, false, List, [], ◌∷◌, Option, String, arith, Bool-cases,
  inl, inr, nat_eq, list_eq, string_eq, filter, has, All, has_iff,
}
use amrc_connectivity_stack.Text.{Text, codes}
use amrc_connectivity_stack.Rx.Response.{
  Header, known, known_headers, to_lower_case, lower_keys, insert_header, to_map_onto, response,
}

-- A header name without a space, as every HTTP header name is.
abbrev pub HasNoSpace : Text → Type 0
HasNoSpace = All (λ c. c ≢ 32)

to_lower_case-HasNoSpace : (s : Text) → HasNoSpace s → HasNoSpace (to_lower_case s)
unfolding to_lower_case
to_lower_case-HasNoSpace [] h = tt
to_lower_case-HasNoSpace (c ∷ s) (hc, h) = (ground arith, to_lower_case-HasNoSpace s h)

abbrev known_name : Text
known_name = codes "cache-control content-type etag"

not-HasNoSpace-known : ¬ HasNoSpace known_name
not-HasNoSpace-known h = omega arith

is_known : (k : Text) → has k known_headers ≡ true → k ≡ known_name
is_known k e = elim ((has_iff k known_headers).0 e) [ inl p ↦ p | inr q ↦ absurd q ]

unknown_of_HasNoSpace : (k : Text) → HasNoSpace k → has k known_headers ≡ false
unknown_of_HasNoSpace k h = elim (Bool-cases (has k known_headers)) [
  | inl e ↦ absurd (not-HasNoSpace-known (subst HasNoSpace (is_known k e) h))
  | inr e ↦ e
]

filter-known_nil :
    (hs : List Header)
    → All (λ h. HasNoSpace h.key) hs
    → filter (λ h. has h.key known_headers) (lower_keys hs) ≡ []
unfolding lower_keys
filter-known_nil [] h = refl
filter-known_nil (j ∷ hs) (hj, h) =
    rw (unknown_of_HasNoSpace (to_lower_case j.key) (to_lower_case-HasNoSpace j.key hj))
      (filter-known_nil hs h)

-- Of headers whose names hold no space none is kept, "cache-control", "content-type" and "etag"
-- included.
response-headers_nil :
    {B : Type 0} (status : ℕ) (body : Option B) (hs : List Header)
    → All (λ h. HasNoSpace h.key) hs
    → (response status body hs).headers ≡ []
unfolding response known
response-headers_nil status body hs h = rw (filter-known_nil hs h)

-- The constructor's headers: none, or one under the one name that is known.
abbrev IsKept : List Header → Type 0
IsKept hs = (hs ≡ []) ⊎ ((v : String) × (hs ≡ record { key = known_name; value = v } ∷ []))

kept_header : (h : Header) → h.key ≡ known_name → record { key = known_name; value = h.value } ≡ h
kept_header h e = λ i. record { key = sym e i; value = h.value }

insert_header-IsKept :
    (h : Header) (m : List Header) → h.key ≡ known_name → IsKept m → IsKept (insert_header h m)
unfolding insert_header
insert_header-IsKept h m e (inl n) = inr (h.value, rw n (ap (λ j. j ∷ []) (sym (kept_header h e))))
insert_header-IsKept h m e (inr (v, n)) = inr (h.value, rw (n, e))

to_map_onto-IsKept :
    (m hs : List Header) → All (λ h. h.key ≡ known_name) hs → IsKept m → IsKept (to_map_onto m hs)
unfolding to_map_onto
to_map_onto-IsKept m [] h k = k
to_map_onto-IsKept m (j ∷ hs) (e, h) k =
    to_map_onto-IsKept (insert_header j m) hs h (insert_header-IsKept j m e k)

filter-is_known :
    (hs : List Header) → All (λ h. h.key ≡ known_name) (filter (λ h. has h.key known_headers) hs)
filter-is_known [] = tt
filter-is_known (j ∷ hs) = elim (Bool-cases (has j.key known_headers)) [
  | inl e ↦ rw e (is_known j.key e, filter-is_known hs)
  | inr e ↦ rw e (filter-is_known hs)
]

known-IsKept : (hs : List Header) → IsKept (known hs)
unfolding known
known-IsKept hs = to_map_onto-IsKept [] _ (filter-is_known (lower_keys hs)) (inl refl)

known_of_IsKept : (hs : List Header) → IsKept hs → known hs ≡ hs
unfolding known
known_of_IsKept hs (inl e) = rw e
known_of_IsKept hs (inr (v, e)) = rw e

-- Headers that the constructor has made are kept as they are.
pub known-known : (hs : List Header) → known (known hs) ≡ known hs
known-known hs = known_of_IsKept (known hs) (known-IsKept hs)
