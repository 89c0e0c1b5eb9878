-- ===== src/ConfigDb/Objects/Views.antt =====
-- The views `all_class`, `all_subclass` and `all_membership` (acs-configdb/lib/model.js, `_class_has`
-- and `class_has`; the views stand in sql/v8.sql).
use amrc_connectivity_stack.Prelude.{
  ℕ, ◌≡◌, refl, subst, inl, inr, ◌↔◌, Bool, true, false, ◌&&◌, ◌||◌, List, [], ◌∷◌, ◌==◌, nat_eq,
  ==_iff, ==_self, In, Bool-cases, arith,
}
use amrc_connectivity_stack.ConfigDb.Objects.{Rel, Store}

-- The rows lead from a class down to an object.
unfoldable pub reaches : List Rel → ℕ → ℕ → Bool
reaches [] a b = a == b
reaches (r ∷ rs) a b = reaches rs a b || (reaches rs a r.class && reaches rs r.id b)

abbrev pub names_class : ℕ → List Rel → Bool
names_class c [] = false
names_class c (r ∷ rs) = r.class == c || names_class c rs

abbrev pub names_id : ℕ → List Rel → Bool
names_id c [] = false
names_id c (r ∷ rs) = r.id == c || names_id c rs

unfoldable pub is_class : ℕ → Store → Bool
is_class c s = names_id c s.subclass || names_class c s.subclass || names_class c s.membership

unfoldable pub all_subclass : Store → ℕ → ℕ → Bool
all_subclass s c o = is_class c s && reaches s.subclass c o

unfoldable pub member_below : Store → ℕ → ℕ → List Rel → Bool
member_below s c o [] = false
member_below s c o (r ∷ rs) = (r.id == o && all_subclass s c r.class) || member_below s c o rs

unfoldable pub all_membership : Store → ℕ → ℕ → Bool
all_membership s c o = member_below s c o s.membership

-- The rows of the recursive view, from a class to itself and on by rows of `subclass`.
pub data Chain (rs : List Rel) (a : ℕ) : ℕ → Type 0 where
  start : Chain rs a a
  down : (b : ℕ) (r : Rel) → Chain rs a r.class → In r rs → r.id ≡ b → Chain rs a b

reaches_self : (rs : List Rel) (a : ℕ) → reaches rs a a ≡ true
unfolding reaches
reaches_self [] a = ==_self a
reaches_self (r ∷ rs) a = ground (arith, reaches_self rs a)

pub reaches_trans :
    (rs : List Rel) (a b c : ℕ)
    → reaches rs a b ≡ true
    → reaches rs b c ≡ true
    → reaches rs a c ≡ true
unfolding reaches
reaches_trans [] a b c h k = ground (arith, ==_iff a b, ==_iff b c, ==_iff a c)
reaches_trans (r ∷ rs) a b c h k = ground (
  arith,
  reaches_trans rs a b c,
  reaches_trans rs a b r.class,
  reaches_trans rs r.id b c,
  reaches_trans rs r.id b r.class,
  reaches_trans rs a r.class b,
)

pub reaches_row : (rs : List Rel) (r : Rel) → In r rs → reaches rs r.class r.id ≡ true
unfolding reaches
reaches_row [] r h = absurd h
reaches_row (q ∷ rs) r h = elim h [
  | inl e ↦ rw e (ground (arith, reaches_self rs q.class, reaches_self rs q.id))
  | inr i ↦ ground (arith, reaches_row rs r i)
]

reaches-of_Chain : (rs : List Rel) (a b : ℕ) → Chain rs a b → reaches rs a b ≡ true
reaches-of_Chain rs a _ Chain.start = reaches_self rs a
reaches-of_Chain rs a b (Chain.down _ r w i e) =
    subst (λ c. reaches rs a c ≡ true) e
      (reaches_trans rs a r.class r.id (reaches-of_Chain rs a r.class w) (reaches_row rs r i))

Chain-more : (rs : List Rel) (q : Rel) (a b : ℕ) → Chain rs a b → Chain (q ∷ rs) a b
Chain-more rs q a _ Chain.start = Chain.start
Chain-more rs q a b (Chain.down _ r w i e) = Chain.down b r (Chain-more rs q a r.class w) (inr i) e

Chain-append : (rs : List Rel) (a b c : ℕ) → Chain rs b c → Chain rs a b → Chain rs a c
Chain-append rs a b _ Chain.start v = v
Chain-append rs a b c (Chain.down _ r w i e) v =
    Chain.down c r (Chain-append rs a b r.class w v) i e

-- One row more, which the chain passes or not.
Chain-step :
    (rs : List Rel) (r : Rel) (a b : ℕ)
    → ((a b : ℕ) → reaches rs a b ≡ true → Chain rs a b)
    → (reaches rs a b || (reaches rs a r.class && reaches rs r.id b)) ≡ true
    → Chain (r ∷ rs) a b
Chain-step rs r a b ih h = elim (Bool-cases (reaches rs a b)) [
  | inl e ↦ Chain-more rs r a b (ih a b e)
  | inr e ↦
      let both : (reaches rs a r.class ≡ true) × (reaches rs r.id b ≡ true) = ground arith in
      Chain-append (r ∷ rs) a r.id b (Chain-more rs r r.id b (ih r.id b both.1))
        (Chain.down r.id r (Chain-more rs r a r.class (ih a r.class both.0)) (inl refl) refl)
]

Chain-of_reaches : (rs : List Rel) (a b : ℕ) → reaches rs a b ≡ true → Chain rs a b
unfolding reaches
Chain-of_reaches [] a b h = subst (λ c. Chain [] a c) ((==_iff a b).0 h) Chain.start
Chain-of_reaches (r ∷ rs) a b h = Chain-step rs r a b (λ a b. Chain-of_reaches rs a b) h

-- A class leads to an object exactly when the recursion of the view `all_subclass` gets there, through
-- any number of rows, also where rows make a cycle.
pub reaches_iff : (rs : List Rel) (a b : ℕ) → (reaches rs a b ≡ true) ↔ Chain rs a b
reaches_iff rs a b = (Chain-of_reaches rs a b, reaches-of_Chain rs a b)
