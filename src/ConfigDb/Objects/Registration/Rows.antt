-- ===== src/ConfigDb/Objects/Registration/Rows.antt =====
-- Rows of the tables of objects and relations when one object is updated (acs-configdb/lib/model.js,
-- the updates of `update_registration`).
use amrc_connectivity_stack.Prelude.{
  ℕ, suc, ◌≡◌, refl, Bool, true, false, List, [], ◌∷◌, Option, none, some, ◌==◌, nat_eq, string_eq,
  option_eq, every, ==_iff, ==_self, arith,
}
use amrc_connectivity_stack.ConfigDb.Objects.{Obj, Rel, Rank, Store, rank_of}
use amrc_connectivity_stack.ConfigDb.Objects.Views.{names_class}
use amrc_connectivity_stack.ConfigDb.Objects.Relations.{is_rank}
use amrc_connectivity_stack.ConfigDb.Objects.Ranks.{
  one_below, same_nonzero, fits_member, fits_subclass, fits_rank, fits_key, verify_ranks,
  verify_ranks_iff, Verified,
}
use amrc_connectivity_stack.ConfigDb.Objects.Registration.{update_object, without}

pub every-map :
    {A : Type 0} (p q : A → Bool) (xs : List A)
    → ((x : A) → p x ≡ true → q x ≡ true)
    → every p xs ≡ true
    → every q xs ≡ true
every-map p q [] f h = refl
every-map p q (x ∷ xs) f h = ground (arith, f x, every-map p q xs f)

-- Rows fit where the ranks of what they name are as before.
member_same :
    (os os' : List Obj) (r : Rel)
    → rank_of r.id os' ≡ rank_of r.id os
    → rank_of r.class os' ≡ rank_of r.class os
    → fits_member os r ≡ true
    → fits_member os' r ≡ true
unfolding fits_member
member_same os os' r gi gc h = rw (gi, gc) h

subclass_same :
    (os os' : List Obj) (r : Rel)
    → rank_of r.id os' ≡ rank_of r.id os
    → rank_of r.class os' ≡ rank_of r.class os
    → fits_subclass os r ≡ true
    → fits_subclass os' r ≡ true
unfolding fits_subclass
subclass_same os os' r gi gc h = rw (gi, gc) h

rank_same :
    (os os' : List Obj) (r : Rank)
    → rank_of r.id os' ≡ rank_of r.id os
    → fits_rank os r ≡ true
    → fits_rank os' r ≡ true
unfolding fits_rank
rank_same os os' r g h = rw g h

pub key_same :
    (os os' : List Obj) (o : Obj)
    → rank_of o.id os' ≡ rank_of o.id os
    → fits_key os o ≡ true
    → fits_key os' o ≡ true
unfolding fits_key
key_same os os' o g h = rw g h

-- Updates that keep what a row is known by.
module _ (i : ℕ) (f : Obj → Obj) (f_id : (o : Obj) → (f o).id ≡ o.id) where
  pub rank_of-update_other :
      (j : ℕ) (os : List Obj) → (j == i) ≡ false → rank_of j (update_object i f os) ≡ rank_of j os
  unfolding rank_of update_object
  rank_of-update_other j [] h = refl
  rank_of-update_other j (o ∷ os) h =
      ground (arith, rank_of-update_other j os h, f_id o, ==_iff o.id i, ==_iff o.id j, ==_iff j i)

  pub rank_of-update_self :
      (d n : ℕ) (os : List Obj)
      → ((o : Obj) → (f o).rank ≡ d)
      → rank_of i os ≡ some n
      → rank_of i (update_object i f os) ≡ some d
  unfolding rank_of update_object
  rank_of-update_self d n [] fr h = cc
  rank_of-update_self d n (o ∷ os) fr h =
      ground (arith, rank_of-update_self d n os fr, fr o, f_id o, ==_iff o.id i)

  pub rank_of-update_same :
      (j : ℕ) (os : List Obj)
      → ((o : Obj) → (f o).rank ≡ o.rank)
      → rank_of j (update_object i f os) ≡ rank_of j os
  unfolding rank_of update_object
  rank_of-update_same j [] fr = refl
  rank_of-update_same j (o ∷ os) fr = ground (arith, rank_of-update_same j os fr, fr o, f_id o)

  every-key_same :
      (os xs : List Obj)
      → ((o : Obj) → (f o).rank ≡ o.rank)
      → every (fits_key os) xs ≡ true
      → every (fits_key os) (update_object i f xs) ≡ true
  unfolding fits_key update_object
  every-key_same os [] fr h = refl
  every-key_same os (o ∷ xs) fr h = ground (arith, every-key_same os xs fr, fr o, f_id o)

  pub every-key_self :
      (os os' xs : List Obj) (d : ℕ)
      → ((o : Obj) → (f o).rank ≡ d)
      → rank_of i os' ≡ some d
      → ((j : ℕ) → (j == i) ≡ false → rank_of j os' ≡ rank_of j os)
      → every (fits_key os) xs ≡ true
      → every (fits_key os') (update_object i f xs) ≡ true
  unfolding fits_key update_object
  every-key_self os os' [] d fr e g h = refl
  every-key_self os os' (o ∷ xs) d fr e g h = ground (
    arith,
    every-key_self os os' xs d fr e g,
    fr o,
    f_id o,
    g o.id,
    ==_iff o.id i,
    ==_self (some d),
  )

  -- An update that keeps ranks passes the checks as before.
  pub verify_ranks-update_object :
      (s : Store)
      → ((o : Obj) → (f o).rank ≡ o.rank)
      → verify_ranks s ≡ true
      → verify_ranks (record s { objects = update_object i f s.objects }) ≡ true
  verify_ranks-update_object s fr h =
      let v : Verified s.objects s.ranks s.membership s.subclass = (verify_ranks_iff s).0 h in
      let os : List Obj = update_object i f s.objects in
      let same : (j : ℕ) → rank_of j os ≡ rank_of j s.objects =
        λ j. rank_of-update_same j s.objects fr in
      (verify_ranks_iff (record s { objects = os })).1 (
        (
          (
            every-map _ _ s.membership (λ r. member_same s.objects os r (same r.id) (same r.class))
                v.0.0.0,
            every-map _ _ s.subclass (λ r. subclass_same s.objects os r (same r.id) (same r.class))
                v.0.0.1,
          ),
          every-map _ _ s.ranks (λ r. rank_same s.objects os r (same r.id)) v.0.1,
        ),
        every-map _ _ os (λ o. key_same s.objects os o (same o.id))
            (every-key_same s.objects s.objects fr v.1),
      )

-- Rows that an update of the ranks of one object does not touch.
module _ (os os' : List Obj) (i : ℕ)
    (g : (j : ℕ) → (j == i) ≡ false → rank_of j os' ≡ rank_of j os) where
  pub every-member_other :
      (rs : List Rel)
      → names_class i rs ≡ false
      → every (fits_member os) rs ≡ true
      → every (fits_member os') (without i rs) ≡ true
  every-member_other [] n h = refl
  every-member_other (r ∷ rs) n h =
      ground (arith, every-member_other rs, member_same os os' r, g r.id, g r.class)

  pub every-subclass_other :
      (rs : List Rel)
      → names_class i rs ≡ false
      → every (fits_subclass os) rs ≡ true
      → every (fits_subclass os') (without i rs) ≡ true
  every-subclass_other [] n h = refl
  every-subclass_other (r ∷ rs) n h =
      ground (arith, every-subclass_other rs, subclass_same os os' r, g r.id, g r.class)

  pub every-rank_other :
      (ks : List Rank)
      → is_rank i ks ≡ false
      → every (fits_rank os) ks ≡ true
      → every (fits_rank os') ks ≡ true
  every-rank_other [] n h = refl
  every-rank_other (r ∷ ks) n h = ground (arith, every-rank_other ks, rank_same os os' r, g r.id)

-- An individual is the class of no row.
one_below_nonzero : (a c : Option ℕ) → one_below a c ≡ true → c ≡ some 0 → ⊥
one_below_nonzero none c h e = cc
one_below_nonzero (some n) c h e = ground (arith, ==_iff c (some (suc n)))

same_nonzero_nonzero : (a c : Option ℕ) → same_nonzero a c ≡ true → c ≡ some 0 → ⊥
same_nonzero_nonzero none c h e = cc
same_nonzero_nonzero (some n) c h e = ground (arith, ==_iff c (some n), ==_iff n 0)

pub no_members :
    (os : List Obj) (i : ℕ) (rs : List Rel)
    → rank_of i os ≡ some 0
    → every (fits_member os) rs ≡ true
    → names_class i rs ≡ false
unfolding fits_member
no_members os i [] e h = refl
no_members os i (r ∷ rs) e h = ground (
  arith,
  no_members os i rs,
  one_below_nonzero (rank_of r.id os) (rank_of r.class os),
  ==_iff r.class i,
)

pub no_subclasses :
    (os : List Obj) (i : ℕ) (rs : List Rel)
    → rank_of i os ≡ some 0
    → every (fits_subclass os) rs ≡ true
    → names_class i rs ≡ false
unfolding fits_subclass
no_subclasses os i [] e h = refl
no_subclasses os i (r ∷ rs) e h = ground (
  arith,
  no_subclasses os i rs,
  same_nonzero_nonzero (rank_of r.id os) (rank_of r.class os),
  ==_iff r.class i,
)
