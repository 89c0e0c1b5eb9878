-- ===== src/Prelude/Lists.antt =====
-- Lists measured by native numbers, predicates by recursion, and JavaScript's array methods.
use Prim.Native.Nat.{ℕ, suc, ◌+◌}
use mathlib.Core.Path.{◌≡◌, refl, ap, sym, ◌∙◌, subst}
use mathlib.Core.Logic.{◌⊎◌, inl, inr, ◌↔◌}
use mathlib.Core.Bool.{Bool, true, false, ◌&&◌, ◌||◌}
use mathlib.Core.List.{List, [], ◌∷◌, ◌++◌, map}
use native.Mathlib.Omega.{arith}
use amrc_connectivity_stack.Prelude.Tests.{if◌then◌else◌, StrictEq, ◌==◌, Bool-cases}

module _ {ℓ} {A : Type ℓ} where
  abbrev pub length : List A → ℕ
  length [] = 0
  length (x ∷ xs) = suc (length xs)

  pub length-append : (xs ys : List A) → length (xs ++ ys) ≡ length xs + length ys
  length-append [] ys = omega arith
  length-append (x ∷ xs) ys = omega (arith, length-append xs ys)

  abbrev pub filter : (A → Bool) → List A → List A
  filter p [] = []
  filter p (x ∷ xs) = if p x then x ∷ filter p xs else filter p xs

  abbrev pub every : (A → Bool) → List A → Bool
  every p [] = true
  every p (x ∷ xs) = p x && every p xs

module _ {ℓ κ} {A : Type ℓ} {B : Type κ} where
  abbrev pub flat_map : (A → List B) → List A → List B
  flat_map f [] = []
  flat_map f (x ∷ xs) = f x ++ flat_map f xs

module _ {A : Type 0} where
  -- `x` stands in the list, with its place kept.
  abbrev pub In : A → List A → Type 0
  In x [] = ⊥
  In x (y ∷ ys) = (x ≡ y) ⊎ In x ys

module _ {ℓ κ} {A : Type ℓ} (P : A → Type κ) where
  abbrev pub All : List A → Type κ
  All [] = Unit
  All (x ∷ xs) = P x × All xs

pub All-imp {ℓ κ μ} :
    {A : Type ℓ} (P : A → Type κ) (Q : A → Type μ) (xs : List A)
    → ((x : A) → P x → Q x)
    → All P xs
    → All Q xs
All-imp P Q [] f h = tt
All-imp P Q (x ∷ xs) f (hx, h) = (f x hx, All-imp P Q xs f h)

pub All-imp_both {ℓ κ} :
    {A : Type ℓ} (P Q R : A → Type κ) (xs : List A)
    → ((x : A) → P x → Q x → R x)
    → All P xs
    → All Q xs
    → All R xs
All-imp_both P Q R [] f h k = tt
All-imp_both P Q R (x ∷ xs) f (hx, h) (kx, k) = (f x hx kx, All-imp_both P Q R xs f h k)

module _ {ℓ κ} {A : Type ℓ} (P : A → Type κ) where
  pub All-filter : (p : A → Bool) (xs : List A) → All P xs → All P (filter p xs)
  All-filter p [] h = tt
  All-filter p (x ∷ xs) (hx, h) = elim (Bool-cases (p x)) [
    | inl e ↦ rw e (hx, All-filter p xs h)
    | inr e ↦ rw e (All-filter p xs h)
  ]

-- No two entries clash.
module _ {ℓ} {A : Type ℓ} (clash : A → A → Bool) where
  abbrev pub Distinct : List A → Type 0
  Distinct [] = Unit
  Distinct (x ∷ xs) = All (λ y. clash x y ≡ false) xs × Distinct xs

  pub Distinct-filter : (p : A → Bool) (xs : List A) → Distinct xs → Distinct (filter p xs)
  Distinct-filter p [] h = tt
  Distinct-filter p (x ∷ xs) (hx, h) = elim (Bool-cases (p x)) [
    | inl e ↦ rw e (All-filter (λ y. clash x y ≡ false) p xs hx, Distinct-filter p xs h)
    | inr e ↦ rw e (Distinct-filter p xs h)
  ]

module _ {A : Type 0} (P : A → Type 0) where
  -- What holds of every entry holds of one that is there.
  pub All-In : (x : A) (xs : List A) → All P xs → In x xs → P x
  All-In x [] h i = absurd i
  All-In x (y ∷ xs) (hy, h) i = elim i [ inl e ↦ subst P (sym e) hy | inr j ↦ All-In x xs h j ]

module _ {ℓ} {A : Type ℓ} ⦃e : StrictEq A⦄ where
  -- `Set.prototype.has` and `Array.prototype.includes`
  abbrev pub has : A → List A → Bool
  has a [] = false
  has a (x ∷ xs) = a == x || has a xs

module _ {A : Type 0} where
  pub In-append : (x : A) (xs ys : List A) → In x (xs ++ ys) ↔ (In x xs ⊎ In x ys)
  In-append x [] ys = (inr, λ h. elim h [ inl a ↦ absurd a | inr b ↦ b ])
  In-append x (y ∷ xs) ys = grind (arith, In-append x xs ys)

  pub In-if :
      (x : A) (b : Bool) (xs ys : List A)
      → In x (if b then xs else ys) ↔ (((b ≡ true) × In x xs) ⊎ ((b ≡ false) × In x ys))
  In-if x true xs ys = (λ h. inl (refl, h), λ h. elim h [ inl (e, i) ↦ i | inr (e, i) ↦ cc ])
  In-if x false xs ys = (λ h. inr (refl, h), λ h. elim h [ inl (e, i) ↦ cc | inr (e, i) ↦ i ])

  pub In-filter :
      (x : A) (p : A → Bool) (xs : List A) → In x (filter p xs) ↔ (In x xs × (p x ≡ true))
  In-filter x p [] = (λ h. absurd h, λ h. absurd h.0)
  In-filter x p (y ∷ xs) = ground (arith, In-filter x p xs)

module _ {A : Type 0} ⦃e : StrictEq A⦄ where
  pub has_iff : (x : A) (xs : List A) → (has x xs ≡ true) ↔ In x xs
  has_iff x [] = (λ h. cc, λ h. absurd h)
  has_iff x (y ∷ xs) = ground (arith, e.same_iff x y, has_iff x xs)

module _ {A B : Type 0} where
  pub In-map : (y : B) (f : A → B) (xs : List A) → In y (map f xs) ↔ ((x : A) × In x xs × (y ≡ f x))
  In-map y f [] = (λ h. absurd h, λ h. absurd h.1)
  In-map y f (x ∷ xs) = (
    λ h. elim h [
      | inl e ↦ (x, inl refl, e)
      | inr i ↦ let (z, j, e) = (In-map y f xs).0 i in (z, inr j, e)
    ],
    λ (z, j, e). elim j [ inl p ↦ inl (e ∙ ap f p) | inr k ↦ inr ((In-map y f xs).1 (z, k, e)) ],
  )

  pub In-flat_map :
      (y : B) (f : A → List B) (xs : List A)
      → In y (flat_map f xs) ↔ ((x : A) × In x xs × In y (f x))
  In-flat_map y f [] = (λ h. absurd h, λ h. absurd h.1)
  In-flat_map y f (x ∷ xs) = (
    λ h. elim ((In-append y (f x) (flat_map f xs)).0 h) [
      | inl i ↦ (x, inl refl, i)
      | inr i ↦ let (z, j, k) = (In-flat_map y f xs).0 i in (z, inr j, k)
    ],
    λ (z, j, k). (In-append y (f x) (flat_map f xs)).1 (elim j [
      | inl p ↦ inl (subst (λ u. In y (f u)) p k)
      | inr j' ↦ inr ((In-flat_map y f xs).1 (z, j', k))
    ]),
  )
