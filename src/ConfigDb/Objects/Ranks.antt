-- ===== src/ConfigDb/Objects/Ranks.antt =====
-- The ranks that rows of relations join, with the three checks on them that verify_invariants makes
-- (acs-configdb/sql/v10.sql), through the changes of class
-- relations (acs-configdb/lib/model.js).
use amrc_connectivity_stack.Prelude.{
  ℕ, zero, suc, ◌≡◌, refl, String, Bool, true, false, not, ◌&&◌, List, [], ◌∷◌, Option, none, some,
  ◌==◌, nat_eq, ==_iff, ==_self, option_eq, string_eq, filter, every, Bool-cases, inl, inr,
  if_holds, option_holds, ◌↔◌, arith,
}
use amrc_connectivity_stack.ConfigDb.Objects.{
  Obj, Rel, Rank, Store, obj_info, rank_of, rank_at, has_row, class_add, add_rank_superclass,
}
use amrc_connectivity_stack.ConfigDb.Objects.Relations.{Outcome}

-- The ranks of a member and its class, one above.
abbrev pub one_below : Option ℕ → Option ℕ → Bool
one_below none c = false
one_below (some n) c = c == some (suc n)

-- The ranks of a subclass and its class, which are the same and not 0.
abbrev pub same_nonzero : Option ℕ → Option ℕ → Bool
same_nonzero none c = false
same_nonzero (some n) c = not (n == 0) && c == some n

unfoldable pub fits_member : List Obj → Rel → Bool
fits_member os r = one_below (rank_of r.id os) (rank_of r.class os)

unfoldable pub fits_subclass : List Obj → Rel → Bool
fits_subclass os r = same_nonzero (rank_of r.id os) (rank_of r.class os)

-- The class of a rank is one rank above its depth.
unfoldable pub fits_rank : List Obj → Rank → Bool
fits_rank os r = rank_of r.id os == some (suc r.depth)

-- The primary key of the table `object`.
unfoldable pub fits_key : List Obj → Obj → Bool
fits_key os o = rank_of o.id os == some o.rank

-- Three checks of `verify_invariants`: on the ranks of membership rows, on those of subclass rows, and
-- that no individual is a subclass. With them what they rest on: the primary key of the objects, and
-- that the class of each rank is one rank above the rank's depth. The other checks of that function
-- are not part of it.
unfoldable pub verify_ranks : Store → Bool
verify_ranks s =
    every (fits_member s.objects) s.membership
    && every (fits_subclass s.objects) s.subclass
    && every (fits_rank s.objects) s.ranks
    && every (fits_key s.objects) s.objects

module _ {A : Type 0} where
  pub every-filter :
      (p q : A → Bool) (xs : List A) → every p xs ≡ true → every p (filter q xs) ≡ true
  every-filter p q [] h = refl
  every-filter p q (x ∷ xs) h = ground (arith, every-filter p q xs)

pub every-class_add :
    (p : Rel → Bool) (c o : ℕ) (rs : List Rel)
    → p (record { class = c; id = o }) ≡ true
    → every p rs ≡ true
    → every p (class_add c o rs) ≡ true
unfolding class_add
every-class_add p c o rs h k = elim (Bool-cases (has_row c o rs)) [
  | inl e ↦ rw e k
  | inr e ↦ rw (e, h, k) refl
]

-- An object that a UUID finds has the rank that its id has.
pub obj_info-rank_of :
    (os xs : List Obj) (u : String) (o : Obj)
    → every (fits_key os) xs ≡ true
    → obj_info u xs ≡ some o
    → rank_of o.id os ≡ some o.rank
unfolding obj_info fits_key
obj_info-rank_of os [] u o h e = cc
obj_info-rank_of os (x ∷ xs) u o h e =
    ground (arith, obj_info-rank_of os xs u o, ==_iff (rank_of x.id os) (some x.rank))

rank_at-rank_of :
    (os : List Obj) (d i : ℕ) (rs : List Rank)
    → every (fits_rank os) rs ≡ true
    → rank_at d rs ≡ some i
    → rank_of i os ≡ some (suc d)
unfolding rank_at fits_rank
rank_at-rank_of os d i [] h e = cc
rank_at-rank_of os d i (r ∷ rs) h e = ground (
  arith,
  rank_at-rank_of os d i rs,
  ==_iff (rank_of r.id os) (some (suc r.depth)),
  ==_iff r.depth d,
)

pub fits_member_lem :
    (os : List Obj) (c o n : ℕ)
    → rank_of o os ≡ some n
    → rank_of c os ≡ some (suc n)
    → fits_member os (record { class = c; id = o }) ≡ true
unfolding fits_member
fits_member_lem os c o n e h = rw (e, h) (==_self (some (suc n)))

pub fits_subclass_lem :
    (os : List Obj) (c o n : ℕ)
    → (n == 0) ≡ false
    → rank_of o os ≡ some n
    → rank_of c os ≡ some n
    → fits_subclass os (record { class = c; id = o }) ≡ true
unfolding fits_subclass
fits_subclass_lem os c o n z e h = rw (e, h, z) (==_self (some n))

-- What the checks say, and what is enough for them when a change makes rows of relations only.
abbrev pub Verified : List Obj → List Rank → List Rel → List Rel → Type 0
Verified os ks ms ss =
    (((every (fits_member os) ms ≡ true) × (every (fits_subclass os) ss ≡ true))
      × (every (fits_rank os) ks ≡ true))
    × (every (fits_key os) os ≡ true)

pub verify_ranks_iff :
    (s : Store) → (verify_ranks s ≡ true) ↔ Verified s.objects s.ranks s.membership s.subclass
unfolding verify_ranks
verify_ranks_iff s = ground arith

-- Tables that pass the checks, where there are any.
abbrev pub Passes : Option Store → Type 0
Passes none = Unit
Passes (some s) = verify_ranks s ≡ true

abbrev pub tables : Outcome → Option Store
tables none = none
tables (some r) = some r.1

-- The class of a rank is above the objects of the rank.
pub add_rank_superclass-Passes :
    (o n : ℕ) (s : Store)
    → verify_ranks s ≡ true
    → rank_of o s.objects ≡ some n
    → Passes (add_rank_superclass o n s)
unfolding add_rank_superclass
add_rank_superclass-Passes o zero s h k = h
add_rank_superclass-Passes o (suc d) s h k =
    let v : Verified s.objects s.ranks s.membership s.subclass = (verify_ranks_iff s).0 h in
    option_holds Passes (rank_at d s.ranks) _ _ (λ e. h)
      (λ c e.
        if_holds Passes (has_row c o s.subclass) _ _ (λ f. tt)
          (λ f.
            let fits : fits_subclass s.objects (record { class = c; id = o }) ≡ true =
              fits_subclass_lem s.objects c o (suc d) (ground (arith, ==_iff (suc d) 0)) k
                (rank_at-rank_of s.objects d c s.ranks v.0.1 e) in
            (verify_ranks_iff (record s { subclass = record { class = c; id = o } ∷ s.subclass })).1
              (((v.0.0.0, ground arith), v.0.1), v.1)))

pub tables_of :
    (st : ℕ) (x : Option Store) → tables (elim x [ none ↦ none | some u ↦ some (st, u) ]) ≡ x
tables_of st none = refl
tables_of st (some u) = refl
