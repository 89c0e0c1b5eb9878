-- ===== src/ConfigDb/Objects/Registration.antt =====
-- Registrations of objects (acs-configdb/lib/model.js, `update_registration`), which the special
-- application for registrations calls within the transaction of a put. A status that is returned
-- commits what was done before it; an exception, `none`, is rolled back.
pub mod Rows
pub mod Ranks
pub mod Owners
use amrc_connectivity_stack.Prelude.{
  ℕ, zero, suc, String, Bool, true, false, not, ◌&&◌, ◌||◌, List, [], ◌∷◌, Option, none, some,
  if◌then◌else◌, ◌==◌, nat_eq, string_eq, option_eq, filter,
}
use amrc_connectivity_stack.ConfigDb.Objects.{
  Obj, Rel, Rank, Store, obj_info, class_add, add_rank_superclass,
}
use amrc_connectivity_stack.ConfigDb.Objects.Views.{all_membership, names_class}
use amrc_connectivity_stack.ConfigDb.Objects.Relations.{Outcome}

-- The config of an object for the application of registrations; the topmost rank has no class.
pub record Registration : Type 0 where
  pub uuid : String
  pub class : Option String
  pub rank : ℕ
  pub owner : String
  pub deleted : Bool

-- Who asks: the UUID, and the permissions TakeFrom and GiveTo on an owner.
pub record Client : Type 0 where
  pub uuid : Option String
  pub may_take : String → Bool
  pub may_give : String → Bool

-- `SpecialObj.Unowned`
abbrev pub no_owner : String
no_owner = "091e796a-65c0-4080-adff-c3ce01a65b2e"

unfoldable pub deep_equal : Registration → Registration → Bool
deep_equal a b =
    a.uuid == b.uuid
    && a.class == b.class
    && a.rank == b.rank
    && a.owner == b.owner
    && (if a.deleted then b.deleted else not b.deleted)

-- An update of the row of the table `object` with an id.
unfoldable pub update_object : ℕ → (Obj → Obj) → List Obj → List Obj
update_object i f [] = []
update_object i f (o ∷ os) = (if o.id == i then f o else o) ∷ update_object i f os

unfoldable pub set_owner : ℕ → ℕ → Store → Store
set_owner i w s = record s { objects = update_object i (λ o. record o { owner = w }) s.objects }

unfoldable pub set_class : ℕ → ℕ → Store → Store
set_class i c s = record s {
  objects = update_object i (λ o. record o { class = some c }) s.objects;
}

unfoldable pub set_rank_class : ℕ → ℕ → ℕ → Store → Store
set_rank_class i d c s = record s {
  objects = update_object i (λ o. record o { rank = d; class = some c }) s.objects;
}

unfoldable pub set_deleted : ℕ → Bool → Store → Store
set_deleted i b s = record s { objects = update_object i (λ o. record o { deleted = b }) s.objects }

abbrev pub may_update_owner : Client → Registration → Registration → Bool
may_update_owner c from to =
    (some from.owner == c.uuid || c.may_take from.owner)
    && (to.owner == no_owner || some to.owner == c.uuid || c.may_give to.owner)

unfoldable pub update_owner : Client → ℕ → Registration → Registration → Store → ℕ × Store
update_owner c i from to s =
    if may_update_owner c from to
    then elim (obj_info to.owner s.objects) [ none ↦ (409, s) | some w ↦ (204, set_owner i w.id s) ]
    else (403, s)

unfoldable pub class_of_rank : Option String → ℕ → Store → Option ℕ
class_of_rank none d s = none
class_of_rank (some u) d s = elim (obj_info u s.objects) [
  | none ↦ none
  | some c ↦ if c.rank == d then some c.id else none
]

unfoldable pub update_class : ℕ → Registration → Store → ℕ × Store
update_class i spec s = elim (class_of_rank spec.class (suc spec.rank) s) [
  | none ↦ (409, s)
  | some k ↦ (
    204,
    set_class i k
        (if all_membership s k i then s else record s { membership = class_add k i s.membership }),
  )
]

-- The view `any_child`: an object is a class of some row.
abbrev pub has_kids : ℕ → Store → Bool
has_kids i s = names_class i s.membership || names_class i s.subclass

abbrev pub without : ℕ → List Rel → List Rel
without i rs = filter (λ r. not (r.id == i)) rs

unfoldable pub moved : ℕ → ℕ → ℕ → Store → Store
moved i d k s = set_rank_class i d k (record s {
  membership = class_add k i (without i s.membership);
  subclass = without i s.subclass;
})

unfoldable pub to_from_individual : ℕ → Registration → Store → Outcome
to_from_individual i spec s = elim (class_of_rank spec.class (suc spec.rank) s) [
  | none ↦ some (409, s)
  | some k ↦
      if spec.rank == 0 && has_kids i s
      then some (409, s)
      else elim (add_rank_superclass i spec.rank (moved i spec.rank k s)) [
        | none ↦ none
        | some t ↦ some (204, t)
      ]
]

unfoldable pub update_rank : ℕ → Registration → Registration → Store → Outcome
update_rank i info spec s =
    if info.rank == 0 || spec.rank == 0 then to_from_individual i spec s else some (409, s)

-- A step, if those before it gave 204; another status ends the handler.
abbrev pub after : Outcome → (Store → Outcome) → Outcome
after none f = none
after (some r) f = if r.0 == 204 then f r.1 else some r

unfoldable pub update_place : ℕ → Registration → Registration → Store → Outcome
update_place i info spec s =
    if not (spec.rank == info.rank)
    then update_rank i info spec s
    else if not (spec.class == info.class)
    then some (update_class i spec s)
    else some (204, s)

-- The registration there is, if any, and the new one, which a patch has completed.
unfoldable pub update_registration :
    Client → ℕ → Option Registration → Registration → Store → Outcome
update_registration c i none spec s = some (500, s)
update_registration c i (some info) spec s =
    if deep_equal info spec
    then some (204, s)
    else if not (spec.uuid == info.uuid)
    then some (409, s)
    else after
        (after
          (if spec.owner == info.owner then some (204, s) else some (update_owner c i info spec s))
          (update_place i info spec))
        (λ t. some (204, set_deleted i spec.deleted t))
