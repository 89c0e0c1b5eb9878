-- ===== src/Auth/Api.antt =====
-- The HTTP API (acs-auth/lib/api_v2.js), and the older calls of acs-auth/lib/authz.js that ask for a
-- permission. A handler is a function of the values that the service holds and of the principal
-- that the request was authenticated for.
pub mod Acls
pub mod Grants
use mathlib.Core.List.{map}
use amrc_connectivity_stack.Prelude.{
  ℕ, ◌≡◌, refl, Bool, true, false, not, ◌&&◌, ◌||◌, List, [], ◌∷◌, ◌++◌, Option, none, some, String,
  if◌then◌else◌, ◌==◌, string_eq, option_eq, nat_eq, filter, has, ltb,
}
use amrc_connectivity_stack.Auth.Uuids
use amrc_connectivity_stack.Auth.Validate.{valid_uuid, valid_krb, valid_grant, GrantBody}
use amrc_connectivity_stack.Auth.Acl.{Grant, Entry, acl_for}
use amrc_connectivity_stack.Auth.Permitted.{
  DataFlow, Identity, permitted, ask, Token, is_given, find_kerberos,
}
use amrc_connectivity_stack.Auth.Store.{
  Store, Given, GrantRequest, Reply, reply, throws, grant_request,
}

-- What is sent: a status with nothing, an access control list, UUIDs, or a grant.
pub data Answer : Type 0 where
  fail : ℕ → Answer
  end : ℕ → Answer
  send_acl : List Entry → Answer
  send_uuids : List String → Answer
  send_uuid : ℕ → Option String → Answer
  send_grant : Grant → Answer
  -- The handler's promise is rejected.
  crash : Answer

-- `_get_acl`: the entries whose permissions the client may read.
unfoldable pub send_allowed : Token → List Entry → Answer
send_allowed none acl = fail 403
send_allowed (some f) acl = send_acl (filter (λ e. f e.permission) acl)

unfoldable pub get_acl_of : DataFlow → String → String → Answer
unfolding send_allowed
get_acl_of d auth principal = elim (acl_for d.groups d.grants d.owned principal) [
  | none ↦ fail 404
  | some acl ↦ send_allowed (permitted d auth Uuids.Perm.read_acl true) acl
]

unfoldable pub get_acl : DataFlow → String → String → Answer
get_acl d auth principal = if valid_uuid principal then get_acl_of d auth principal else fail 410

unfoldable pub get_krb_acl : DataFlow → String → String → Answer
get_krb_acl d auth upn =
    if valid_krb upn
    then elim (find_kerberos d upn) [
      | none ↦ send_acl []
      | some principal ↦ get_acl_of d auth principal
    ]
    else fail 410

-- `grants.map(g => g.uuid).filter(tok)`
unfoldable pub allowed_uuids : Token → List Grant → Answer
allowed_uuids none grants = fail 403
allowed_uuids (some f) grants = send_uuids (filter f (map (λ (g : Grant). g.uuid) grants))

unfoldable pub grant_list : DataFlow → String → Answer
grant_list d auth = allowed_uuids (permitted d auth Uuids.Perm.write_acl true) d.grants

unfoldable pub find_grant : (Grant → Bool) → List Grant → Option Grant
find_grant test [] = none
find_grant test (g ∷ gs) = if test g then some g else find_grant test gs

unfoldable pub grant_get : DataFlow → String → String → Answer
grant_get d auth uuid =
    if valid_uuid uuid
    then elim (find_grant (λ g. g.uuid == uuid) d.grants) [
      | none ↦ fail 404
      | some g ↦
          if ask (permitted d auth Uuids.Perm.write_acl true) g.permission
          then send_grant g
          else fail 403
    ]
    else fail 410

-- The fields of `grant/find`; a field that is not a UUID, or not a Boolean, is refused.
pub record Wanted : Type 0 where
  pub principal : Option String
  pub permission : Option String
  pub target : Option String
  pub plural : Option Bool

abbrev is_uuid_or_null : Option String → Bool
is_uuid_or_null none = true
is_uuid_or_null (some u) = valid_uuid u

abbrev maybe_string : String → Option String → Bool
maybe_string got none = true
maybe_string got (some want) = got == want

abbrev maybe_bool : Bool → Option Bool → Bool
maybe_bool got none = true
maybe_bool got (some true) = got
maybe_bool got (some false) = not got

unfoldable pub is_wanted : Wanted → Grant → Bool
is_wanted w g =
    maybe_string g.principal w.principal
    && maybe_string g.permission w.permission
    && maybe_string g.target w.target
    && maybe_bool g.plural w.plural

unfoldable pub grant_find_api : DataFlow → String → Wanted → Answer
grant_find_api d auth w =
    if is_uuid_or_null w.principal && is_uuid_or_null w.permission && is_uuid_or_null w.target
    then allowed_uuids (permitted d auth Uuids.Perm.write_acl true) (filter (is_wanted w) d.grants)
    else fail 422

-- A grant that was found valid.
abbrev pub given : GrantBody → Bool → Given
given b plural = record {
  principal = b.principal;
  permission = b.permission;
  target = b.target;
  plural = plural;
}

abbrev pub given_of_body : GrantBody → Option Given
given_of_body b = elim b.plural [ none ↦ none | some plural ↦ some (given b plural) ]

-- The answer to a request of the database, with a body or without.
unfoldable pub answer_new : Reply → Answer
answer_new throws = crash
answer_new (reply status uuid) = if ltb 299 status then fail status else send_uuid status uuid

unfoldable pub answer_put : Reply → Answer
answer_put throws = crash
answer_put (reply status uuid) = end status

-- POST /grant. `fresh` is the UUID that the database would generate.
unfoldable pub post_grant : DataFlow → String → GrantBody → String → Store → Answer × Store
post_grant d auth body fresh s =
    if valid_grant body
    then (let (r, s') =
          grant_request fresh
            (record {
              uuid = none;
              grant = given_of_body body;
              permitted = permitted d auth Uuids.Perm.write_acl true;
            })
            s in
        (answer_new r, s'))
    else (fail 422, s)

-- PUT /grant/:uuid with a body, and DELETE with none.
abbrev pub body_valid : Option GrantBody → Bool
body_valid none = true
body_valid (some b) = valid_grant b

abbrev pub body_given : Option GrantBody → Option Given
body_given none = none
body_given (some b) = given_of_body b

unfoldable pub grant_put : DataFlow → String → String → Option GrantBody → Store → Answer × Store
grant_put d auth uuid body s =
    if valid_uuid uuid
    then (if body_valid body
        then (let (r, s') =
              grant_request ""
                (record {
                  uuid = some uuid;
                  grant = body_given body;
                  permitted = permitted d auth Uuids.Perm.write_acl true;
                })
                s in
            (answer_put r, s'))
        else (fail 422, s))
    else (fail 410, s)
