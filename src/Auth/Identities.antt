-- ===== src/Auth/Identities.antt =====
-- Lookups of identities and of a principal's groups (acs-auth/lib/dataflow.js, `track_identities`
-- to `find_groups`): the response that each sequence emits first.
pub mod Laws
use amrc_connectivity_stack.Prelude.{
  ℕ, ◌≡◌, refl, Bool, true, false, not, ◌&&◌, ◌||◌, List, [], ◌∷◌, ◌++◌, Option, none, some, String,
  if◌then◌else◌, ◌==◌, string_eq, option_eq, filter, has,
}
use amrc_connectivity_stack.Rx.Response.{Response, response, ok, filter_body}
use amrc_connectivity_stack.Auth.Uuids
use amrc_connectivity_stack.Auth.Validate.{valid_uuid, valid_krb}
use amrc_connectivity_stack.Auth.Acl.{keys}
use amrc_connectivity_stack.Auth.Permitted.{DataFlow, Identity, permitted, Token, is_given}

-- The filter: the keys that a caller supplies.
pub record Cond : Type 0 where
  pub uuid : Option String
  pub kind : Option String
  pub name : Option String

-- An absent value and the empty string are false where they are tested.
abbrev truthy : Option String → Bool
truthy none = false
truthy (some s) = not (s == "")

abbrev on_value : (String → Bool) → Option String → Bool
on_value test none = false
on_value test (some s) = test s

unfoldable pub cannot_hold : Cond → Bool
cannot_hold c =
    (truthy c.uuid && on_value (λ u. not (valid_uuid u)) c.uuid)
    || (truthy c.name && not (truthy c.kind))
    || (c.kind == some "kerberos" && truthy c.name && on_value (λ n. not (valid_krb n)) c.name)

abbrev agrees : Option String → String → Bool
agrees none v = true
agrees (some w) v = v == w

unfoldable pub fits : Cond → Identity → Bool
fits c i = agrees c.uuid i.uuid && agrees c.kind i.kind && agrees c.name i.name

-- `ids.length`
abbrev pub non_empty {ℓ} : {A : Type ℓ} → Option (List A) → Bool
non_empty none = false
non_empty (some []) = false
non_empty (some (x ∷ xs)) = true

-- `none` is the empty Optional.
unfoldable pub track_identities : DataFlow → String → Cond → Option (Response (List Identity))
track_identities d upn cond =
    if cannot_hold cond
    then none
    else some (
        filter_body
          (if is_given (permitted d upn Uuids.Perm.read_krb false)
            then ok (some (filter (fits cond) d.identities))
            else response 403 none [])
          non_empty)

abbrev or_gone : {B : Type 0} → Option (Response B) → Response B
or_gone none = response 410 none []
or_gone (some r) = r

unfoldable pub find_identities : DataFlow → String → Cond → Response (List Identity)
find_identities d upn cond = or_gone (track_identities d upn cond)

-- The groups that hold the principal, if it is registered.
unfoldable pub groups_of : DataFlow → String → Option (List String)
groups_of d principal =
    if has principal d.groups.princ
    then some (keys (filter (λ (k, ms). has principal ms) d.groups.princ_grp))
    else none

group_response : Token → Option (List String) → Response (List String)
group_response none groups = response 403 none []
group_response (some f) none = response 410 none []
group_response (some f) (some gs) = ok (some gs)

unfoldable pub track_groups : DataFlow → String → String → Option (Response (List String))
unfolding group_response
track_groups d upn principal =
    if valid_uuid principal
    then some (group_response (permitted d upn Uuids.Perm.read_krb false) (groups_of d principal))
    else none

unfoldable pub find_groups : DataFlow → String → String → Response (List String)
find_groups d upn principal = or_gone (track_groups d upn principal)
