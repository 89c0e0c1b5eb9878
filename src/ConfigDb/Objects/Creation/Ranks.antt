-- ===== src/ConfigDb/Objects/Creation/Ranks.antt =====
-- The checks of `verify_ranks` through the creation and the
-- deletion of objects (acs-configdb/lib/model.js).
use amrc_connectivity_stack.Prelude.{
  ℕ, suc, ◌-◌, ◌≡◌, refl, sym, ◌∙◌, ap, subst, String, true, false, List, ◌∷◌, Option, none, some,
  ◌==◌, nat_eq, string_eq, option_eq, if_holds, option_holds, ==_iff, ==_self, arith,
}
use amrc_connectivity_stack.ConfigDb.Objects.{
  Obj, Rel, Rank, Store, obj_info, rank_of, class_add, add_rank_superclass,
}
use amrc_connectivity_stack.ConfigDb.Objects.Ranks.{
  one_below, same_nonzero, fits_member, fits_subclass, fits_rank, fits_key, verify_ranks,
  verify_ranks_iff, every-class_add, fits_member_lem, fits_subclass_lem, obj_info-rank_of,
  add_rank_superclass-Passes, Passes, Verified, tables, tables_of,
}
use amrc_connectivity_stack.ConfigDb.Objects.Registration.{Client}
use amrc_connectivity_stack.ConfigDb.Objects.Registration.Rows.{every-map}
use amrc_connectivity_stack.ConfigDb.Objects.Creation.{
  Spec, insert_object, insert_below, join_class, may_create, create_new, Registrations, is_truthy,
  create_or_update, object_create,
}

one_below_iff :
    (x c : Option ℕ) → one_below x c ≡ true → (n : ℕ) × ((x ≡ some n) × (c ≡ some (suc n)))
one_below_iff none c h = cc
one_below_iff (some n) c h = (n, (refl, (==_iff c (some (suc n))).0 h))

same_nonzero_iff :
    (x c : Option ℕ)
    → same_nonzero x c ≡ true
    → (n : ℕ) × (((n == 0) ≡ false) × ((x ≡ some n) × (c ≡ some n)))
same_nonzero_iff none c h = cc
same_nonzero_iff (some n) c h =
    let both : ((n == 0) ≡ false) × ((c == some n) ≡ true) = ground arith in
    (n, (both.0, (refl, (==_iff c (some n)).0 both.1)))

-- A new object, with an id that is no object's yet.
module _ (o : Obj) (os : List Obj) (new : rank_of o.id os ≡ none) where
  rank_of-new : (j n : ℕ) → rank_of j os ≡ some n → rank_of j (o ∷ os) ≡ some n
  unfolding rank_of
  rank_of-new j n h = ground (arith, ==_iff o.id j)

  rank_of_self : rank_of o.id (o ∷ os) ≡ some o.rank
  unfolding rank_of
  rank_of_self = rw (==_self o.id) refl

  member_new : (r : Rel) → fits_member os r ≡ true → fits_member (o ∷ os) r ≡ true
  unfolding fits_member
  member_new r h =
      let e : (n : ℕ) × ((rank_of r.id os ≡ some n) × (rank_of r.class os ≡ some (suc n))) =
        one_below_iff (rank_of r.id os) (rank_of r.class os) h in
      fits_member_lem (o ∷ os) r.class r.id e.0 (rank_of-new r.id e.0 e.1.0)
        (rank_of-new r.class (suc e.0) e.1.1)

  subclass_new : (r : Rel) → fits_subclass os r ≡ true → fits_subclass (o ∷ os) r ≡ true
  unfolding fits_subclass
  subclass_new r h =
      let e : (n : ℕ) × (((n == 0) ≡ false)
            × ((rank_of r.id os ≡ some n) × (rank_of r.class os ≡ some n))) =
        same_nonzero_iff (rank_of r.id os) (rank_of r.class os) h in
      fits_subclass_lem (o ∷ os) r.class r.id e.0 e.1.0 (rank_of-new r.id e.0 e.1.1.0)
        (rank_of-new r.class e.0 e.1.1.1)

  rank_new : (r : Rank) → fits_rank os r ≡ true → fits_rank (o ∷ os) r ≡ true
  unfolding fits_rank
  rank_new r h =
      rw (rank_of-new r.id (suc r.depth) ((==_iff (rank_of r.id os) (some (suc r.depth))).0 h))
        (==_self (some (suc r.depth)))

  key_new : (x : Obj) → fits_key os x ≡ true → fits_key (o ∷ os) x ≡ true
  unfolding fits_key
  key_new x h =
      rw (rank_of-new x.id x.rank ((==_iff (rank_of x.id os) (some x.rank)).0 h))
        (==_self (some x.rank))

  key_self : fits_key (o ∷ os) o ≡ true
  unfolding fits_key
  key_self = rw rank_of_self (==_self (some o.rank))

insert_below-Passes :
    (u : String) (c : Obj) (w : ℕ) (s : Store)
    → verify_ranks s ≡ true
    → rank_of s.next_id s.objects ≡ none
    → rank_of c.id s.objects ≡ some c.rank
    → Passes (tables (insert_below u c w s))
unfolding insert_below insert_object join_class
insert_below-Passes u c w s h new rc =
    let v : Verified s.objects s.ranks s.membership s.subclass = (verify_ranks_iff s).0 h in
    if_holds (λ x. Passes (tables x)) (c.rank == 0) _ _ (λ e. tt)
      (λ e.
        let o : Obj = record {
          id = s.next_id;
          uuid = u;
          class = some c.id;
          rank = c.rank - 1;
          owner = w;
          deleted = false;
        } in
        let os : List Obj = o ∷ s.objects in
        let self : rank_of s.next_id os ≡ some (c.rank - 1) = rank_of_self o s.objects new in
        let above : rank_of c.id os ≡ some (suc (c.rank - 1)) =
          rank_of-new o s.objects new c.id (suc (c.rank - 1))
            (rc ∙ ap some (ground (arith, ==_iff c.rank 0))) in
        let t : Store = record s {
          objects = os;
          next_id = suc s.next_id;
          membership = class_add c.id s.next_id s.membership;
        } in
        subst Passes (sym (tables_of 201 (add_rank_superclass s.next_id (c.rank - 1) t))) (
          add_rank_superclass-Passes s.next_id (c.rank - 1) t
            ((verify_ranks_iff t).1 (
              (
                (
                  every-class_add (fits_member os) c.id s.next_id s.membership
                      (fits_member_lem os c.id s.next_id (c.rank - 1) self above)
                      (every-map _ _ s.membership (member_new o s.objects new) v.0.0.0),
                  every-map _ _ s.subclass (subclass_new o s.objects new) v.0.0.1,
                ),
                every-map _ _ s.ranks (rank_new o s.objects new) v.0.1,
              ),
              rw (key_self o s.objects new) (every-map _ _ s.objects (key_new o s.objects new) v.1),
            ))
            self))

create_new-Passes :
    (c : Client) (u : String) (k : Option String) (spec : Spec) (s : Store)
    → verify_ranks s ≡ true
    → rank_of s.next_id s.objects ≡ none
    → Passes (tables (create_new c u k spec s))
unfolding create_new
create_new-Passes c u none spec s h new = h
create_new-Passes c u (some k) spec s h new =
    let v : Verified s.objects s.ranks s.membership s.subclass = (verify_ranks_iff s).0 h in
    option_holds (λ x. Passes (tables x)) (obj_info k s.objects) _ _ (λ e. h)
      (λ class e.
        if_holds (λ x. Passes (tables x)) (may_create c spec) _ _
          (λ f.
            option_holds (λ x. Passes (tables x)) (obj_info spec.owner s.objects) _ _ (λ g. h)
              (λ w g.
                insert_below-Passes u class w.id s h new
                  (obj_info-rank_of s.objects s.objects k class v.1 e)))
          (λ f. h))

none-some : (o : Obj) → none ≡ some o → ⊥
none-some o e = cc

create_or_update-Passes :
    (c : Client) (regs : Registrations) (fresh : String) (u : Option String) (spec : Spec)
    (s : Store)
    → verify_ranks s ≡ true
    → rank_of s.next_id s.objects ≡ none
    → ((x : String) → u ≡ some x → obj_info x s.objects ≡ none)
    → Passes (tables (create_or_update c regs fresh u spec s))
unfolding create_or_update
create_or_update-Passes c regs fresh none spec s h new k =
    create_new-Passes c fresh spec.class spec s h new
create_or_update-Passes c regs fresh (some x) spec s h new k =
    option_holds (λ y. Passes (tables y)) (obj_info x s.objects) _ _
      (λ e. create_new-Passes c x spec.class spec s h new)
      (λ o e. absurd (none-some o (sym (k x refl) ∙ e)))

-- Tables that pass the checks of verify_ranks pass them after object_create for a UUID that no object has, or
-- for none, whatever the answer, if the next id of the sequence is no object's.
pub object_create-Passes :
    (c : Client) (regs : Registrations) (fresh : String) (spec : Spec) (s : Store)
    → verify_ranks s ≡ true
    → rank_of s.next_id s.objects ≡ none
    → ((x : String) → spec.uuid ≡ some x → obj_info x s.objects ≡ none)
    → Passes (tables (object_create c regs fresh spec s))
unfolding object_create
object_create-Passes c regs fresh spec s h new k =
    if_holds (λ x. Passes (tables x)) (is_truthy spec.rank) _ _ (λ e. h)
      (λ e. create_or_update-Passes c regs fresh spec.uuid spec s h new k)
