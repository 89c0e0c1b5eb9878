-- ===== src/ConfigDb/Objects/Registration/Owners.antt =====
-- Changes of owners (acs-configdb/lib/model.js, `update_registration` and `_update_owner`).
use amrc_connectivity_stack.Prelude.{
  ℕ, ◌≡◌, refl, true, false, some, ◌==◌, nat_eq, string_eq, option_eq, ==_iff, arith,
}
use amrc_connectivity_stack.ConfigDb.Objects.{Obj, Store, obj_info}
use amrc_connectivity_stack.ConfigDb.Objects.Registration.{
  Registration, Client, may_update_owner, deep_equal, set_owner, update_owner, update_rank,
  update_place, update_registration,
}

-- Where a client may give the object to a new owner, and asks also for another rank, between ranks
-- that are not 0, the answer is 409, and the object has the new owner.
pub update_registration-update_owner :
    (c : Client) (i : ℕ) (info spec : Registration) (s : Store) (w : Obj)
    → (spec.uuid ≡ info.uuid) × ((spec.owner == info.owner) ≡ false)
    → may_update_owner c info spec ≡ true
    → obj_info spec.owner s.objects ≡ some w
    → ((info.rank == 0) ≡ false) × (((spec.rank == 0) ≡ false) × ((spec.rank == info.rank) ≡ false))
    → update_registration c i (some info) spec s ≡ some (409, set_owner i w.id s)
unfolding update_registration deep_equal update_owner update_place update_rank
update_registration-update_owner c i info spec s w (u, o) m e (a, (b, d)) =
    let differs : deep_equal info spec ≡ false =
      ground (arith, ==_iff info.owner spec.owner, ==_iff spec.owner info.owner) in
    let same : (spec.uuid == info.uuid) ≡ true = ground (arith, ==_iff spec.uuid info.uuid) in
    let given : update_owner c i info spec s ≡ (204, set_owner i w.id s) = rw (m, e) refl in
    let placed : update_place i info spec (set_owner i w.id s) ≡ some (409, set_owner i w.id s) =
      rw (d, a, b) refl in
    rw (differs, same, o) (rw given (rw placed refl))
