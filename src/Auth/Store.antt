-- ===== src/Auth/Store.antt =====
-- Grants in the database (acs-auth/lib/model.js and queries.js). A row holds the UUIDs that the
-- columns `principal`, `permission` and `target` refer to by their ids in the table `uuid`.
pub mod Rows
pub mod Update
pub mod Keeps
pub mod Frame
use amrc_connectivity_stack.Prelude.{
  ℕ, ◌+◌, ◌≡◌, refl, Bool, true, false, not, ◌&&◌, ◌||◌, List, [], ◌∷◌, ◌++◌, Option, none, some,
  String, if◌then◌else◌, ◌==◌, string_eq, nat_eq, filter, has,
}
use amrc_connectivity_stack.Auth.Acl.{Grant}
use amrc_connectivity_stack.Auth.Permitted.{Token}

-- A row of the table `ace`.
pub record Ace : Type 0 where
  pub id : ℕ
  pub uuid : String
  pub principal : String
  pub permission : String
  pub target : String
  pub plural : Bool

-- A grant as a request gives it.
pub record Given : Type 0 where
  pub principal : String
  pub permission : String
  pub target : String
  pub plural : Bool

-- The tables `uuid` and `ace`, and the sequence of `ace.id`.
pub record Store : Type 0 where
  pub uuids : List String
  pub aces : List Ace
  pub next_id : ℕ

-- What a request ends with: an HTTP status and perhaps a UUID, or an exception.
pub data Reply : Type 0 where
  reply : ℕ → Option String → Reply
  throws : Reply

abbrev bool_beq : Bool → Bool → Bool
bool_beq true b = b
bool_beq false b = not b

-- The columns of the constraint `ace_unique`.
abbrev pub same_key : Given → Ace → Bool
same_key g a =
    g.principal == a.principal
    && g.permission == a.permission
    && g.target == a.target
    && bool_beq g.plural a.plural

unfoldable pub uuid_find : String → Store → Store
uuid_find uuid s = if has uuid s.uuids then s else record s { uuids = uuid ∷ s.uuids }

unfoldable pub grant_resolve_uuids : Given → Store → Store
grant_resolve_uuids g s = uuid_find g.target (uuid_find g.permission (uuid_find g.principal s))

unfoldable pub find_row : (Ace → Bool) → List Ace → Option Ace
find_row test [] = none
find_row test (a ∷ rest) = if test a then some a else find_row test rest

abbrev pub row_of : ℕ → String → Given → Ace
row_of id uuid g = record {
  id = id;
  uuid = uuid;
  principal = g.principal;
  permission = g.permission;
  target = g.target;
  plural = g.plural;
}

unfoldable pub has_uuid : String → List Ace → Bool
has_uuid u [] = false
has_uuid u (a ∷ rest) = a.uuid == u || has_uuid u rest

-- `fresh` is what `gen_random_uuid()` gives. The insertion does nothing on a conflict, which only
-- a repeated UUID can make here.
unfoldable pub insert_grant : String → Given → Store → Reply × Store
insert_grant fresh g s = if has_uuid fresh s.aces then (reply 409 none, s) else (
  reply 201 (some fresh),
  record s { aces = row_of s.next_id fresh g ∷ s.aces; next_id = s.next_id + 1 },
)

unfoldable pub grant_new : String → Given → Store → Reply × Store
grant_new fresh g s =
    let s' = grant_resolve_uuids g s in
    elim (find_row (same_key g) s'.aces) [
      | some a ↦ (reply 200 (some a.uuid), s')
      | none ↦ insert_grant fresh g s'
    ]

unfoldable pub delete_row : ℕ → List Ace → List Ace
delete_row id = filter (λ a. not (a.id == id))

unfoldable pub grant_delete : ℕ → Store → Store
grant_delete id s = record s { aces = delete_row id s.aces }

-- Another row has the key already.
unfoldable pub clashes : ℕ → Given → List Ace → Bool
clashes id g [] = false
clashes id g (a ∷ rest) = (not (a.id == id) && same_key g a) || clashes id g rest

unfoldable pub update_row : ℕ → Given → List Ace → List Ace
update_row id g [] = []
update_row id g (a ∷ rest) = (if a.id == id then row_of a.id a.uuid g else a) ∷ update_row id g rest

-- The update throws where it breaks `ace_unique`, and the transaction is then rolled back.
unfoldable pub grant_update : ℕ → Given → Store → Reply × Store
grant_update id g s =
    if clashes id g s.aces
    then (throws, s)
    else let s' = grant_resolve_uuids g s in
      (reply 204 none, record s' { aces = update_row id g s'.aces })

-- A row with a permission that the client may not write is 403; `none` in the third place is the
-- call of a `permitted` that is null.
pub data Found : Type 0 where
  missing forbidden not_callable : Found
  found : ℕ → Found

unfoldable pub grant_find : String → Token → Store → Found
grant_find uuid token s = elim (find_row (λ a. a.uuid == uuid) s.aces) [
  | none ↦ missing
  | some a ↦ elim token [
    | none ↦ not_callable
    | some permitted ↦ if permitted a.permission then found a.id else forbidden
  ]
]

pub record GrantRequest : Type 0 where
  pub uuid : Option String
  pub grant : Option Given
  pub permitted : Token

-- The first test of `grant_request`; `none` where it calls a `permitted` that is null.
abbrev pub may_write : Option Given → Token → Option Bool
may_write none token = some true
may_write (some g) none = none
may_write (some g) (some permitted) = some (permitted g.permission)

unfoldable pub change_grant : ℕ → Option Given → Store → Reply × Store
change_grant id none s = (reply 204 none, grant_delete id s)
change_grant id (some g) s = grant_update id g s

-- The transaction of `grant_request`. A new grant is there whenever no UUID is (the API sees to
-- it); `grant_new(null)` throws.
unfoldable pub run_grant : String → GrantRequest → Store → Reply × Store
run_grant fresh r s = elim r.uuid [
  | none ↦ elim r.grant [ none ↦ (throws, s) | some g ↦ grant_new fresh g s ]
  | some uuid ↦ elim (grant_find uuid r.permitted s) [
    | missing ↦ (reply 404 none, s)
    | forbidden ↦ (reply 403 none, s)
    | not_callable ↦ (throws, s)
    | found id ↦ change_grant id r.grant s
  ]
]

unfoldable pub grant_request : String → GrantRequest → Store → Reply × Store
grant_request fresh r s = elim (may_write r.grant r.permitted) [
  | none ↦ (throws, s)
  | some allowed ↦ if allowed then run_grant fresh r s else (reply 403 none, s)
]

unfoldable pub grant_rows : List Ace → List Grant
grant_rows [] = []
grant_rows (a ∷ rest) =
    record {
      uuid = a.uuid;
      principal = a.principal;
      permission = a.permission;
      target = a.target;
      plural = a.plural;
    }
    ∷ grant_rows rest

unfoldable pub grant_get_all : Store → List Grant
grant_get_all s = grant_rows s.aces
