-- ===== src/ConfigDb/Objects/Registration/Ranks.antt =====
-- The checks of `verify_ranks` through update_registration
-- (acs-configdb/lib/model.js).
use amrc_connectivity_stack.Prelude.{
  ℕ, suc, ◌≡◌, ◌≢◌, refl, sym, ◌∙◌, ap, subst, String, Bool, true, false, not, ◌&&◌, ◌||◌, List, [],
  ◌∷◌, Option, none, some, if◌then◌else◌, ◌==◌, nat_eq, string_eq, option_eq, if_holds,
  option_holds, ==_iff, arith,
}
use amrc_connectivity_stack.ConfigDb.Objects.{
  Obj, Store, obj_info, rank_of, class_add, add_rank_superclass,
}
use amrc_connectivity_stack.ConfigDb.Objects.Views.{all_membership, names_class}
use amrc_connectivity_stack.ConfigDb.Objects.Relations.{Outcome, is_rank}
use amrc_connectivity_stack.ConfigDb.Objects.Ranks.{
  fits_member, verify_ranks, verify_ranks_iff, every-class_add, fits_member_lem, obj_info-rank_of,
  add_rank_superclass-Passes, Passes, Verified, tables, tables_of,
}
use amrc_connectivity_stack.ConfigDb.Objects.Registration.{
  Registration, Client, may_update_owner, deep_equal, update_object, set_owner, set_class,
  set_rank_class, set_deleted, update_owner, class_of_rank, update_class, has_kids, without, moved,
  to_from_individual, update_rank, after, update_place, update_registration,
}
use amrc_connectivity_stack.ConfigDb.Objects.Registration.Rows.{
  rank_of-update_other, rank_of-update_self, rank_of-update_same, every-key_self,
  verify_ranks-update_object, every-member_other, every-subclass_other, every-rank_other,
  no_members, no_subclasses,
}

-- The tables after an object has moved to a rank and a class.
moved-verify_ranks :
    (i d k n : ℕ) (s : Store)
    → verify_ranks s ≡ true
    → rank_of i s.objects ≡ some n
    → is_rank i s.ranks ≡ false
    → rank_of k s.objects ≡ some (suc d)
    → (k == i) ≡ false
    → names_class i s.membership ≡ false
    → names_class i s.subclass ≡ false
    → (verify_ranks (moved i d k s) ≡ true) × (rank_of i (moved i d k s).objects ≡ some d)
unfolding moved set_rank_class
moved-verify_ranks i d k n s h ri nr rk ki nm ns =
    let v : Verified s.objects s.ranks s.membership s.subclass = (verify_ranks_iff s).0 h in
    let f : Obj → Obj = λ o. record o { rank = d; class = some k } in
    let os : List Obj = update_object i f s.objects in
    let others : (j : ℕ) → (j == i) ≡ false → rank_of j os ≡ rank_of j s.objects =
      λ j. rank_of-update_other i f (λ o. refl) j s.objects in
    let self : rank_of i os ≡ some d =
      rank_of-update_self i f (λ o. refl) d n s.objects (λ o. refl) ri in
    (
      (verify_ranks_iff (moved i d k s)).1 (
        (
          (
            every-class_add (fits_member os) k i (without i s.membership)
                (fits_member_lem os k i d self (others k ki ∙ rk))
                (every-member_other s.objects os i others s.membership nm v.0.0.0),
            every-subclass_other s.objects os i others s.subclass ns v.0.0.1,
          ),
          every-rank_other s.objects os i others s.ranks nr v.0.1,
        ),
        every-key_self i f (λ o. refl) s.objects os s.objects d (λ o. refl) self others v.1,
      ),
      self,
    )

class_of_rank-rank_of :
    (c : Option String) (d k : ℕ) (s : Store)
    → verify_ranks s ≡ true
    → class_of_rank c d s ≡ some k
    → rank_of k s.objects ≡ some d
unfolding class_of_rank
class_of_rank-rank_of none d k s h e = cc
class_of_rank-rank_of (some u) d k s h e =
    let v : Verified s.objects s.ranks s.membership s.subclass = (verify_ranks_iff s).0 h in
    option_holds (λ (x : Option ℕ). x ≡ some k → rank_of k s.objects ≡ some d)
      (obj_info u s.objects) _ _ (λ f g. cc)
      (λ o f.
        if_holds (λ (x : Option ℕ). x ≡ some k → rank_of k s.objects ≡ some d) (o.rank == d) _ _
          (λ t g.
            let r : rank_of o.id s.objects ≡ some o.rank =
              obj_info-rank_of s.objects s.objects u o v.1 f in
            let q : o.rank ≡ d = (==_iff o.rank d).0 t in ground arith)
          (λ t g. cc))
      e

to_from_individual-Passes :
    (i n : ℕ) (spec : Registration) (s : Store)
    → verify_ranks s ≡ true
    → rank_of i s.objects ≡ some n
    → is_rank i s.ranks ≡ false
    → (n == 0 || spec.rank == 0) ≡ true
    → class_of_rank spec.class (suc spec.rank) s ≢ some i
    → Passes (tables (to_from_individual i spec s))
unfolding to_from_individual
to_from_individual-Passes i n spec s h ri nr z other =
    let v : Verified s.objects s.ranks s.membership s.subclass = (verify_ranks_iff s).0 h in
    option_holds (λ x. Passes (tables x)) (class_of_rank spec.class (suc spec.rank) s) _ _ (λ e. h)
      (λ k e.
        if_holds (λ x. Passes (tables x)) (spec.rank == 0 && has_kids i s) _ _ (λ t. h)
          (λ t.
            let none_below : (names_class i s.membership ≡ false)
                × (names_class i s.subclass ≡ false) =
              ground (
                arith,
                no_members s.objects i s.membership,
                no_subclasses s.objects i s.subclass,
                ==_iff n 0,
              ) in
            let ki : (k == i) ≡ false = ground (arith, ==_iff k i) in
            let m : (verify_ranks (moved i spec.rank k s) ≡ true)
                × (rank_of i (moved i spec.rank k s).objects ≡ some spec.rank) =
              moved-verify_ranks i spec.rank k n s h ri nr
                (class_of_rank-rank_of spec.class (suc spec.rank) k s h e) ki none_below.0
                none_below.1 in
            subst Passes
              (sym (tables_of 204 (add_rank_superclass i spec.rank (moved i spec.rank k s))))
              (add_rank_superclass-Passes i spec.rank (moved i spec.rank k s) m.0 m.1)))

update_class-Passes :
    (i : ℕ) (spec : Registration) (s : Store)
    → verify_ranks s ≡ true
    → rank_of i s.objects ≡ some spec.rank
    → verify_ranks (update_class i spec s).1 ≡ true
unfolding update_class set_class
update_class-Passes i spec s h ri =
    let v : Verified s.objects s.ranks s.membership s.subclass = (verify_ranks_iff s).0 h in
    option_holds (λ (r : ℕ × Store). verify_ranks r.1 ≡ true)
      (class_of_rank spec.class (suc spec.rank) s) _ _ (λ e. h)
      (λ k e.
        verify_ranks-update_object i (λ o. record o { class = some k }) (λ o. refl) _ (λ o. refl)
          (if_holds (λ t. verify_ranks t ≡ true) (all_membership s k i) _ _ (λ t. h)
            (λ t. (verify_ranks_iff (record s { membership = class_add k i s.membership })).1 (
              (
                (
                  every-class_add (fits_member s.objects) k i s.membership
                      (fits_member_lem s.objects k i spec.rank ri
                        (class_of_rank-rank_of spec.class (suc spec.rank) k s h e))
                      v.0.0.0,
                  v.0.0.1,
                ),
                v.0.1,
              ),
              v.1,
            ))))

-- An object that a UUID finds, its rank and its id, when only owners change.
class_id : ℕ → Option Obj → Option ℕ
class_id d none = none
class_id d (some c) = if c.rank == d then some c.id else none

class_of_rank-class_id :
    (u : String) (d : ℕ) (s : Store)
    → class_of_rank (some u) d s ≡ class_id d (obj_info u s.objects)
unfolding class_of_rank class_id
class_of_rank-class_id u d s =
    option_holds (λ x. x ≡ class_id d (obj_info u s.objects)) (obj_info u s.objects) _ _
      (λ e. rw e refl) (λ c e. rw e refl)

class_id-set_owner :
    (u : String) (d i w : ℕ) (os : List Obj)
    → class_id d (obj_info u (update_object i (λ o. record o { owner = w }) os))
      ≡ class_id d (obj_info u os)
unfolding class_id obj_info update_object
class_id-set_owner u d i w [] = refl
class_id-set_owner u d i w (o ∷ os) = ground (arith, class_id-set_owner u d i w os)

class_of_rank-set_owner :
    (c : Option String) (d i w : ℕ) (s : Store)
    → class_of_rank c d (set_owner i w s) ≡ class_of_rank c d s
unfolding class_of_rank set_owner
class_of_rank-set_owner none d i w s = refl
class_of_rank-set_owner (some u) d i w s =
    class_of_rank-class_id u d (set_owner i w s)
    ∙ (class_id-set_owner u d i w s.objects ∙ sym (class_of_rank-class_id u d s))

-- The tables before the step that places the object.
record Ready (i n : ℕ) (spec : Registration) (s : Store) : Type 0 where
  verified : verify_ranks s ≡ true
  has_rank : rank_of i s.objects ≡ some n
  is_moved : (spec.rank == n) ≡ false → is_rank i s.ranks ≡ false
  is_other : class_of_rank spec.class (suc spec.rank) s ≢ some i

set_owner-Ready :
    (i n w : ℕ) (spec : Registration) (s : Store)
    → Ready i n spec s
    → Ready i n spec (set_owner i w s)
unfolding set_owner
set_owner-Ready i n w spec s r =
    let f : Obj → Obj = λ o. record o { owner = w } in
    record {
      verified = verify_ranks-update_object i f (λ o. refl) s (λ o. refl) r.verified;
      has_rank = rank_of-update_same i f (λ o. refl) i s.objects (λ o. refl) ∙ r.has_rank;
      is_moved = r.is_moved;
      is_other =
          λ e. r.is_other (sym (class_of_rank-set_owner spec.class (suc spec.rank) i w s) ∙ e);
    }

update_owner-Ready :
    (c : Client) (i n : ℕ) (info spec : Registration) (s : Store)
    → Ready i n spec s
    → Ready i n spec (update_owner c i info spec s).1
unfolding update_owner
update_owner-Ready c i n info spec s r =
    if_holds (λ (x : ℕ × Store). Ready i n spec x.1) (may_update_owner c info spec) _ _
      (λ e.
        option_holds (λ (x : ℕ × Store). Ready i n spec x.1) (obj_info spec.owner s.objects) _ _
          (λ f. r) (λ w f. set_owner-Ready i n w.id spec s r))
      (λ e. r)

update_place-Passes :
    (i : ℕ) (info spec : Registration) (s : Store)
    → Ready i info.rank spec s
    → Passes (tables (update_place i info spec s))
unfolding update_place update_rank
update_place-Passes i info spec s r =
    if_holds (λ x. Passes (tables x)) (not (spec.rank == info.rank)) _ _
      (λ e.
        if_holds (λ x. Passes (tables x)) (info.rank == 0 || spec.rank == 0) _ _
          (λ z.
            to_from_individual-Passes i info.rank spec s r.verified r.has_rank
              (r.is_moved (ground arith)) z r.is_other)
          (λ z. r.verified))
      (λ e.
        if_holds (λ x. Passes (tables x)) (not (spec.class == info.class)) _ _
          (λ f.
            update_class-Passes i spec s r.verified
              (r.has_rank ∙ ap some (sym ((==_iff spec.rank info.rank).0 (ground arith)))))
          (λ f. r.verified))

after-Passes :
    (i n : ℕ) (spec : Registration) (r : ℕ × Store) (f : Store → Outcome)
    → Ready i n spec r.1
    → ((t : Store) → Ready i n spec t → Passes (tables (f t)))
    → Passes (tables (after (some r) f))
after-Passes i n spec r f k g =
    if_holds (λ x. Passes (tables x)) (r.0 == 204) _ _ (λ e. g r.1 k) (λ e. k.verified)

deleted-Passes :
    (i : ℕ) (b : Bool) (x : Outcome)
    → Passes (tables x)
    → Passes (tables (after x (λ t. some (204, set_deleted i b t))))
unfolding set_deleted
deleted-Passes i b none h = tt
deleted-Passes i b (some r) h =
    if_holds (λ x. Passes (tables x)) (r.0 == 204) _ _
      (λ e.
        verify_ranks-update_object i (λ o. record o { deleted = b }) (λ o. refl) r.1 (λ o. refl) h)
      (λ e. h)

-- The checks of verify_ranks that the tables pass before a registration of an object is updated, they pass
-- after it, whatever the answer, if the object has the rank of its old registration, is no class of a
-- rank where its rank changes, and does not name itself as its class one rank above the new one.
pub update_registration-Passes :
    (c : Client) (i : ℕ) (info spec : Registration) (s : Store)
    → verify_ranks s ≡ true
    → rank_of i s.objects ≡ some info.rank
    → ((spec.rank == info.rank) ≡ false → is_rank i s.ranks ≡ false)
    → class_of_rank spec.class (suc spec.rank) s ≢ some i
    → Passes (tables (update_registration c i (some info) spec s))
unfolding update_registration
update_registration-Passes c i info spec s h ri nr other =
    let ready : Ready i info.rank spec s = record {
      verified = h;
      has_rank = ri;
      is_moved = nr;
      is_other = other;
    } in
    if_holds (λ x. Passes (tables x)) (deep_equal info spec) _ _ (λ e. h)
      (λ e.
        if_holds (λ x. Passes (tables x)) (not (spec.uuid == info.uuid)) _ _ (λ f. h)
          (λ f. deleted-Passes i spec.deleted _ (
            if_holds (λ x. Passes (tables (after x (update_place i info spec))))
              (spec.owner == info.owner) _ _
              (λ g.
                after-Passes i info.rank spec (204, s) (update_place i info spec) ready
                  (update_place-Passes i info spec))
              (λ g.
                after-Passes i info.rank spec (update_owner c i info spec s)
                  (update_place i info spec) (update_owner-Ready c i info.rank info spec s ready)
                  (update_place-Passes i info spec)))))
