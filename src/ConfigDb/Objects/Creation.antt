-- ===== src/ConfigDb/Objects/Creation.antt =====
-- Creating and deleting objects (acs-configdb/lib/model.js, `object_create` and `object_delete`).
pub mod Ranks
use amrc_connectivity_stack.Prelude.{
  ℕ, zero, suc, ◌-◌, String, Bool, true, false, not, ◌&&◌, ◌||◌, List, [], ◌∷◌, Option, none, some,
  if◌then◌else◌, ◌==◌, nat_eq, string_eq, option_eq, filter,
}
use amrc_connectivity_stack.ConfigDb.Objects.{
  Obj, Rel, Rank, Store, obj_info, class_add, add_rank_superclass,
}
use amrc_connectivity_stack.ConfigDb.Objects.Views.{names_class}
use amrc_connectivity_stack.ConfigDb.Objects.Relations.{Outcome, is_rank}
use amrc_connectivity_stack.ConfigDb.Objects.Registration.{
  Registration, Client, no_owner, without, update_registration,
}

-- The body of a request for an object; the handler has filled in the owner.
pub record Spec : Type 0 where
  pub uuid : Option String
  pub class : Option String
  pub rank : Option ℕ
  pub owner : String

-- A number is true in a test when it is there and not 0.
unfoldable pub is_truthy : Option ℕ → Bool
is_truthy none = false
is_truthy (some n) = not (n == 0)

abbrev pub may_create : Client → Spec → Bool
may_create c spec = spec.owner == no_owner || some spec.owner == c.uuid || c.may_give spec.owner

-- The tables with the row of a new object below its class.
unfoldable pub insert_object : String → Obj → ℕ → Store → Store
insert_object u c w s = record s {
  objects =
      record {
        id = s.next_id;
        uuid = u;
        class = some c.id;
        rank = c.rank - 1;
        owner = w;
        deleted = false;
      }
      ∷ s.objects;
  next_id = suc s.next_id;
}

unfoldable pub join_class : Obj → ℕ → Store → Outcome
join_class c i s =
    elim (add_rank_superclass i (c.rank - 1)
      (record s { membership = class_add c.id i s.membership })) [
        | none ↦ none
        | some t ↦ some (201, t)
      ]

-- `none` is the exception of a rank below 0.
unfoldable pub insert_below : String → Obj → ℕ → Store → Outcome
insert_below u c w s = if c.rank == 0 then none else join_class c s.next_id (insert_object u c w s)

-- A new object, with the UUID of the request or a fresh one.
unfoldable pub create_new : Client → String → Option String → Spec → Store → Outcome
create_new c u none spec s = some (422, s)
create_new c u (some k) spec s = elim (obj_info k s.objects) [
  | none ↦ some (409, s)
  | some class ↦
      if may_create c spec
      then elim (obj_info spec.owner s.objects) [
        | none ↦ some (409, s)
        | some w ↦ insert_below u class w.id s
      ]
      else some (403, s)
]

-- The registration that the body patches.
unfoldable pub patched : Spec → Registration → Registration
patched spec info = record {
  uuid = elim spec.uuid [ none ↦ info.uuid | some u ↦ u ];
  class = elim spec.class [ none ↦ info.class | some k ↦ some k ];
  rank = elim spec.rank [ none ↦ info.rank | some d ↦ d ];
  owner = spec.owner;
  deleted = false;
}

-- The registrations of the objects, by id: the configs of the application of registrations.
abbrev pub Registrations : Type 0
Registrations = ℕ → Option Registration

unfoldable pub recreate : Client → ℕ → Option Registration → Spec → Store → Outcome
recreate c i none spec s = some (500, s)
recreate c i (some info) spec s = elim (update_registration c i (some info) (patched spec info) s) [
  | none ↦ none
  | some r ↦ some (if r.0 == 204 then 200 else r.0, r.1)
]

-- `_object_create`, by whether the UUID is of an object already.
unfoldable pub create_or_update :
    Client → Registrations → String → Option String → Spec → Store → Outcome
create_or_update c regs fresh none spec s = create_new c fresh spec.class spec s
create_or_update c regs fresh (some u) spec s = elim (obj_info u s.objects) [
  | none ↦ create_new c u spec.class spec s
  | some o ↦ recreate c o.id (regs o.id) spec s
]

unfoldable pub object_create : Client → Registrations → String → Spec → Store → Outcome
object_create c regs fresh spec s =
    if is_truthy spec.rank then some (422, s) else create_or_update c regs fresh spec.uuid spec s

-- `Immutable`
unfoldable pub is_immutable : String → Bool
is_immutable u =
    u == "04a1c90d-2295-4cbe-b33a-74eded62cbf1"
    || u == "d319bd87-f42b-4b66-be4f-f82ff48b93f0"
    || u == "ddb132e4-5cdd-49c8-b9b1-2f35879eab6d"
    || u == "cb40bed5-49ad-4443-a7f5-08c75009da8f"
    || u == "dbd8a535-52ba-4f6e-b4f8-9b71aefe09d3"
    || u == "00000000-0000-0000-0000-000000000000"
    || u == no_owner
    || u == "18773d6d-a70d-443a-b29a-3f1583195290"
    || u == "83ee28d4-023e-4c2c-ab86-12c24e86372c"

unfoldable pub is_app : ℕ → List (ℕ × ℕ) → Bool
is_app i [] = false
is_app i (r ∷ rs) = r.0 == i || is_app i rs

-- Another object has the object as its class or its owner.
unfoldable pub is_referenced : ℕ → List Obj → Bool
is_referenced i [] = false
is_referenced i (o ∷ os) =
    (not (o.id == i) && (o.class == some i || o.owner == i)) || is_referenced i os

-- The object, its configs and, by the cascade, its rows of relations go; `none` is the exception of a
-- foreign key.
unfoldable pub delete_object : ℕ → Store → Outcome
delete_object i s =
    if is_rank i s.ranks || is_referenced i s.objects
    then none
    else some (
      204,
      record s {
        objects = filter (λ o. not (o.id == i)) s.objects;
        membership = without i s.membership;
        subclass = without i s.subclass;
        config_apps = filter (λ r. not (r.1 == i)) s.config_apps;
      },
    )

unfoldable pub object_delete : String → Store → Outcome
object_delete u s = if is_immutable u then some (405, s) else elim (obj_info u s.objects) [
  | none ↦ some (404, s)
  | some o ↦
      if names_class o.id s.membership
      then some (409, s)
      else if names_class o.id s.subclass
      then some (409, s)
      else if is_app o.id s.config_apps
      then some (409, s)
      else delete_object o.id s
]
