-- ===== src/Auth/Permitted.antt =====
-- Checks of permissions (acs-auth/lib/dataflow.js, `track_targets` to `track_kerberos`): the value
-- that each sequence emits, from the values that the service holds.
pub mod Decision
use mathlib.Core.List.{map}
use amrc_connectivity_stack.Prelude.{
  ℕ, ◌≡◌, refl, Bool, true, false, not, ◌&&◌, ◌||◌, List, [], ◌∷◌, ◌++◌, Option, none, some, String,
  if◌then◌else◌, ◌==◌, string_eq, filter, has, flat_map, lookup,
}
use amrc_connectivity_stack.Auth.Uuids
use amrc_connectivity_stack.Auth.Validate.{valid_uuid}
use amrc_connectivity_stack.Auth.Acl.{Grant, Groups, Entry, acl_for}

-- A row of `identity_get_all`.
pub record Identity : Type 0 where
  pub uuid : String
  pub kind : String
  pub name : String

-- The latest values of the sequences, and the root principal.
pub record DataFlow : Type 0 where
  pub root : String
  pub identities : List Identity
  pub grants : List Grant
  pub groups : Groups
  pub owned : List (String × List String)

first_uuid : List Identity → Option String
first_uuid [] = none
first_uuid (i ∷ is) = some i.uuid

unfoldable pub find_kerberos : DataFlow → String → Option String
unfolding first_uuid
find_kerberos d upn = first_uuid (filter (λ i. i.kind == "kerberos" && i.name == upn) d.identities)

-- A principal is named by its UUID, or by a Kerberos name.
unfoldable pub resolve_principal : DataFlow → String → Option String
unfolding valid_uuid find_kerberos
resolve_principal d input = if valid_uuid input then some input else find_kerberos d input

-- An undefined list makes an empty sequence.
abbrev pub entries : Option (List Entry) → List Entry
entries none = []
entries (some acl) = acl

abbrev acl_of : DataFlow → Option String → List Entry
acl_of d none = []
acl_of d (some p) = entries (acl_for d.groups d.grants d.owned p)

unfoldable pub targets : DataFlow → String → String → List String
targets d input perm =
    map (λ (e : Entry). e.target)
      (filter (λ e. e.permission == perm) (acl_of d (resolve_principal d input)))

-- `null`, or a function from target to Boolean.
abbrev pub Token : Type 0
Token = Option (String → Bool)

unfoldable pub token : Bool → List String → Token
token wild [] = none
token wild (t ∷ ts) =
    if wild && has Uuids.Special.wildcard (t ∷ ts)
    then some (λ _. true)
    else some (λ i. has i (t ∷ ts))

unfoldable pub permitted : DataFlow → String → String → Bool → Token
unfolding token
permitted d upn perm wild =
    if upn == d.root then some (λ _. true) else token wild (targets d upn perm)

-- `tok?.(targ)`, read as a Boolean.
abbrev pub ask : Token → String → Bool
ask none targ = false
ask (some f) targ = f targ

-- A token that is not null.
abbrev pub is_given : Token → Bool
is_given none = false
is_given (some f) = true
