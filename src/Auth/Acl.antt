-- ===== src/Auth/Acl.antt =====
-- The access control list of a principal (acs-auth/lib/dataflow.js, `_acl_for` and `_build_owned`).
-- A set is a list of its members, and a map is a list of its entries; their order is not used.
pub mod Expansion
pub mod Granted
pub mod Owned
use mathlib.Core.List.{map}
use amrc_connectivity_stack.Prelude.{
  ℕ, ◌≡◌, refl, Bool, true, false, not, List, [], ◌∷◌, ◌++◌, Option, none, some, String,
  if◌then◌else◌, ◌==◌, string_eq, filter, has, flat_map, lookup,
}
use amrc_connectivity_stack.Auth.Uuids

-- A row of `grant_get_all`.
pub record Grant : Type 0 where
  pub uuid : String
  pub principal : String
  pub permission : String
  pub target : String
  pub plural : Bool

-- What the ConfigDB says of principals, permissions and targets.
pub record Groups : Type 0 where
  pub princ : List String
  pub princ_grp : List (String × List String)
  pub perm : List String
  pub perm_grp : List (String × List String)
  pub targ_grp : List (String × List String)

pub record Entry : Type 0 where
  pub permission : String
  pub target : String

pub data Key : Type 0 where
  permission_key target_key : Key

unfoldable pub field : Grant → Key → String
field e permission_key = e.permission
field e target_key = e.target

unfoldable pub with_field : Grant → Key → String → Grant
with_field e permission_key m = record e { permission = m }
with_field e target_key m = record e { target = m }

abbrev pub or_empty : Option (List String) → List String
or_empty none = []
or_empty (some ms) = ms

-- The members that an identifier stands for.
unfoldable pub members_of :
    String → List (String × List String) → List (String × List String) → String → List String
members_of principal owned grps id =
    or_empty (if id == Uuids.Special.mine then lookup principal owned else lookup id grps)

-- `expand`
unfoldable pub expand :
    String → List (String × List String) → List (String × List String) → Grant → Key → List Grant
unfolding field with_field members_of
expand principal owned grps e key =
    map (λ m. with_field e key m) (members_of principal owned grps (field e key))

unfoldable pub keys : List (String × List String) → List String
keys [] = []
keys ((k, ms) ∷ m) = k ∷ keys m

-- `accept_princ`: the groups that hold the principal, and the principal.
unfoldable pub accept_princ : Groups → String → List String
unfolding keys
accept_princ groups principal =
    keys (filter (λ (k, ms). has principal ms) groups.princ_grp) ++ principal ∷ []

unfoldable pub expand_permission :
    Groups → List (String × List String) → String → Grant → List Grant
unfolding expand
expand_permission groups owned principal e =
    if has e.permission groups.perm
    then e ∷ []
    else expand principal owned groups.perm_grp e permission_key

unfoldable pub expand_target : Groups → List (String × List String) → String → Grant → List Grant
unfolding expand
expand_target groups owned principal e =
    if e.plural then expand principal owned groups.targ_grp e target_key else e ∷ []

unfoldable pub to_entry : String → Grant → Entry
to_entry principal e = record {
  permission = e.permission;
  target = if e.target == Uuids.Special.self then principal else e.target;
}

-- `_acl_for`; an unknown principal has no list, which is `undefined` there.
unfoldable pub acl_for :
    Groups → List Grant → List (String × List String) → String → Option (List Entry)
unfolding accept_princ expand_permission expand_target to_entry
acl_for groups grants owned principal =
    if has principal groups.princ
    then some (
        map (to_entry principal) (
          flat_map (expand_target groups owned principal) (
            flat_map (expand_permission groups owned principal)
              (filter (λ e. has e.principal (accept_princ groups principal)) grants))))
    else none

-- `_build_owned`: the registered objects by owner, without those that nobody owns.
add_owned : String → String → List (String × List String) → List (String × List String)
add_owned obj owner [] = (owner, obj ∷ []) ∷ []
add_owned obj owner ((o, objs) ∷ m) =
    if o == owner then (o, obj ∷ objs) ∷ m else (o, objs) ∷ add_owned obj owner m

unfoldable pub build_owned : List (String × String) → List (String × List String)
unfolding add_owned
build_owned [] = []
build_owned ((obj, owner) ∷ es) =
    let rest = build_owned es in
    if owner == Uuids.Special.unowned then rest else add_owned obj owner rest
