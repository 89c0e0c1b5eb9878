-- ===== src/ConfigDb/Tests/Objects.antt =====
-- Tests of the objects, ranks and class relations of the Config Store (acs-configdb/lib/model.js).
use amrc_connectivity_stack.Prelude.{
  ℕ, ◌≡◌, ◌≢◌, ◌↔◌, refl, String, true, false, [], ◌∷◌, Option, none, some, ◌==◌, nat_eq, string_eq,
  option_eq, In,
}
use amrc_connectivity_stack.ConfigDb.Objects.{
  Obj, Rel, Store, obj_info, rank_of, rank_at, has_row, class_add, class_remove,
  add_rank_superclass,
}
use amrc_connectivity_stack.ConfigDb.Objects.Views.{
  reaches, is_class, all_subclass, member_below, all_membership, Chain,
}
use amrc_connectivity_stack.ConfigDb.Objects.Relations.{
  adding_member, removing_member, adding_subclass, removing_subclass, add_member, remove_member,
  add_subclass, remove_subclass, class_relation,
}
use amrc_connectivity_stack.ConfigDb.Objects.Ranks.{
  fits_member, fits_subclass, fits_rank, fits_key, verify_ranks, Passes, tables,
}
use amrc_connectivity_stack.ConfigDb.Objects.Membership.{class_relation-removing_member}
use amrc_connectivity_stack.ConfigDb.Objects.Cycles.{class_relation-adding_subclass}
use amrc_connectivity_stack.ConfigDb.Objects.Registration.{
  Registration, Client, deep_equal, update_object, set_owner, set_rank_class, set_deleted,
  update_owner, class_of_rank, moved, to_from_individual, update_rank, update_place,
  update_registration,
}
use amrc_connectivity_stack.ConfigDb.Objects.Creation.{
  Spec, Registrations, is_immutable, is_app, is_referenced, delete_object, object_delete, is_truthy,
  insert_object, join_class, insert_below, create_new, patched, recreate, create_or_update,
  object_create,
}
use amrc_connectivity_stack.ConfigDb.Objects.Creation.Ranks.{object_create-Passes}
use amrc_connectivity_stack.ConfigDb.Objects.Registration.Ranks.{update_registration-Passes}
use amrc_connectivity_stack.ConfigDb.Objects.Registration.Owners.{update_registration-update_owner}

abbrev object : ℕ → String → Option ℕ → ℕ → Obj
object i u c d = record { id = i; uuid = u; class = c; rank = d; owner = 40; deleted = false }

abbrev row : ℕ → ℕ → Rel
row c o = record { class = c; id = o }

-- The classes of the ranks, the classes Device, Sensor and Alone, and a sensor of the class Device.
abbrev tables_there : Store
tables_there = record {
  objects =
      object 12 "individual" (some 1) 1
      ∷ object 1 "rank 1" (some 11) 2
      ∷ object 11 "rank 2" (some 10) 3
      ∷ object 10 "rank 3" none 4
      ∷ object 20 "device" (some 1) 1
      ∷ object 21 "sensor" (some 1) 1
      ∷ object 22 "alone" (some 1) 1
      ∷ object 30 "probe" (some 20) 0
      ∷ object 40 "owner" (some 12) 0
      ∷ [];
  ranks =
      record { depth = 0; id = 12 }
      ∷ record { depth = 1; id = 1 }
      ∷ record { depth = 2; id = 11 }
      ∷ record { depth = 3; id = 10 }
      ∷ [];
  membership =
      row 1 12 ∷ row 11 1 ∷ row 10 11 ∷ row 1 20 ∷ row 1 21 ∷ row 1 22 ∷ row 21 30 ∷ row 12 40 ∷ [];
  subclass = row 12 20 ∷ row 20 21 ∷ row 12 22 ∷ [];
  config_apps = [];
  next_id = 50;
}

abbrev registered : String → Option String → ℕ → String → Registration
registered u c d w = record { uuid = u; class = c; rank = d; owner = w; deleted = false }

abbrev client : Client
client = record { uuid = some "owner"; may_take = λ u. false; may_give = λ u. u == "probe" }

-- The tables, or those there at first.
abbrev option_or : Option Store → Store
option_or none = tables_there
option_or (some s) = s

-- The class of rank 1 that the registration names is another object.
twelve : class_of_rank (some "individual") 1 tables_there ≢ some 22
unfolding class_of_rank obj_info
twelve e = cc

abbrev status_of : Option (ℕ × Store) → ℕ
status_of none = 0
status_of (some r) = r.0

abbrev registers : Registrations
registers i = some (registered "alone" (some "rank 1") 1 "owner")

abbrev wanted : Option String → String → Option ℕ → Spec
wanted u k d = record { uuid = u; class = some k; rank = d; owner = "owner" }

no_uuid :
    (x : String)
    → (wanted none "device" none).uuid ≡ some x
    → obj_info x tables_there.objects ≡ none
no_uuid x e = cc

-- The tests: the views; a subclass that is removed takes a member out of its primary class; a class
-- that becomes an individual with itself as its class.
objects_tests : Unit {0}
unfolding obj_info rank_of rank_at has_row class_add class_remove add_rank_superclass reaches
    is_class all_subclass member_below all_membership remove_subclass class_relation fits_member
    fits_subclass fits_rank fits_key verify_ranks deep_equal update_object set_rank_class
    set_deleted class_of_rank moved to_from_individual update_rank update_place update_registration
    remove_member add_member add_subclass update_owner set_owner
objects_tests =
    let t1 : all_membership tables_there 12 30 ≡ true = refl in
    let t2 : all_membership tables_there 20 40 ≡ false = refl in
    let t3 : verify_ranks tables_there ≡ true = refl in
    let t4 : (class_relation adding_member "device" "probe" tables_there).0 ≡ 204 = refl in
    let t5 : (class_relation adding_member "rank 1" "probe" tables_there).0 ≡ 409 = refl in
    let t6 : (class_relation removing_member "sensor" "probe" tables_there).0 ≡ 409 = refl in
    let t7 : (class_relation adding_subclass "sensor" "alone" tables_there).1.subclass
        ≡ row 21 22 ∷ row 12 20 ∷ row 20 21 ∷ [] =
      refl in
    let t8 : (class_relation removing_subclass "device" "sensor" tables_there).0 ≡ 204 = refl in
    let t9 : all_membership (class_relation removing_subclass "device" "sensor" tables_there).1 20
          30
        ≡ false =
      refl in
    let t10 : Passes (
        tables (
          update_registration client 20 (some (registered "device" (some "rank 1") 1 "owner"))
            (registered "device" (some "rank 1") 1 "probe") tables_there)) =
      refl in
    let t11 : ((option_or (
          tables (
            update_registration client 22 (some (registered "alone" (some "rank 1") 1 "owner"))
              (registered "alone" (some "alone") 0 "owner") tables_there))).membership)
        ≡ row 22 22
          ∷ row 1 12
          ∷ row 11 1
          ∷ row 10 11
          ∷ row 1 20
          ∷ row 1 21
          ∷ row 21 30
          ∷ row 12 40
          ∷ [] =
      refl in
    let t12 : verify_ranks (
          option_or (
            tables (
              update_registration client 22 (some (registered "alone" (some "rank 1") 1 "owner"))
                (registered "alone" (some "alone") 0 "owner") tables_there)))
        ≡ false =
      refl in
    tt

class_relation-removing_member_example :
    ((class_relation removing_member "sensor" "probe" tables_there).0 ≡ 204)
    ↔ (r : Rel) × (In r tables_there.membership
        × ((r.id ≡ 30) × ((r.class ≢ 21) × Chain tables_there.subclass 20 r.class)))
unfolding obj_info
class_relation-removing_member_example =
    class_relation-removing_member "sensor" "probe" tables_there (object 21 "sensor" (some 1) 1)
      (object 30 "probe" (some 20) 0) 20 (refl, refl) refl

class_relation-adding_subclass_example :
    ((class_relation adding_subclass "sensor" "device" tables_there).0 ≡ 204)
    × ((r : Rel)
        → In r (class_relation adding_subclass "sensor" "device" tables_there).1.subclass
        → r.id ≡ 20
        → r.class ≡ 21)
unfolding obj_info reaches
class_relation-adding_subclass_example =
    class_relation-adding_subclass "sensor" "device" tables_there (object 21 "sensor" (some 1) 1)
      (object 20 "device" (some 1) 1) (refl, refl) (refl, refl) refl

update_registration-Passes_example : Passes (
    tables (
      update_registration client 22
        (some (registered "alone" (some "rank 1") 1 "owner"))
        (registered "alone" (some "individual") 0 "probe")
        tables_there))
unfolding obj_info rank_of fits_member fits_subclass fits_rank fits_key verify_ranks class_of_rank
update_registration-Passes_example =
    update_registration-Passes client 22 (registered "alone" (some "rank 1") 1 "owner")
      (registered "alone" (some "individual") 0 "probe") tables_there refl refl (λ e. refl) twelve

update_registration-update_owner_example :
    update_registration client 20
      (some (registered "device" (some "rank 1") 1 "owner"))
      (registered "device" (some "rank 2") 2 "probe")
      tables_there
    ≡ some (409, set_owner 20 30 tables_there)
unfolding obj_info
update_registration-update_owner_example =
    update_registration-update_owner client 20 (registered "device" (some "rank 1") 1 "owner")
      (registered "device" (some "rank 2") 2 "probe") tables_there (object 30 "probe" (some 20) 0)
      (refl, refl) refl refl (refl, (refl, refl))

-- Deleting a class with members, one without, an owner, and the class of a rank; creating a member, a
-- member of an individual, and an object with a rank; a rank of 0 for a class that is there.
creation_tests : Unit {0}
unfolding obj_info rank_at has_row class_add add_rank_superclass is_immutable is_app is_referenced
    delete_object object_delete is_truthy insert_object join_class insert_below create_new patched
    recreate create_or_update object_create deep_equal update_place update_rank to_from_individual
    class_of_rank moved set_rank_class update_object update_registration set_deleted
creation_tests =
    let t1 : object_delete "sensor" tables_there ≡ some (409, tables_there) = refl in
    let t2 : (option_or (tables (object_delete "alone" tables_there))).subclass
        ≡ row 12 20 ∷ row 20 21 ∷ [] =
      refl in
    let t3 : object_delete "owner" tables_there ≡ none = refl in
    let t4 : object_delete "individual" tables_there ≡ some (409, tables_there) = refl in
    let t5 : (option_or (
          tables (
            object_create client registers "new" (wanted none "sensor" none)
              tables_there))).membership
        ≡ row 21 50 ∷ tables_there.membership =
      refl in
    let t6 : object_create client registers "new" (wanted none "probe" none) tables_there ≡ none =
      refl in
    let t7 : object_create client registers "new" (wanted none "sensor" (some 1)) tables_there
        ≡ some (422, tables_there) =
      refl in
    let t8 : status_of (
          object_create client registers "new" (wanted (some "alone") "individual" (some 0))
            tables_there)
        ≡ 200 =
      refl in
    tt

object_create-Passes_example :
    Passes (tables (object_create client registers "new" (wanted none "device" none) tables_there))
unfolding obj_info rank_of fits_member fits_subclass fits_rank fits_key verify_ranks
object_create-Passes_example =
    object_create-Passes client registers "new" (wanted none "device" none) tables_there refl refl
      no_uuid
