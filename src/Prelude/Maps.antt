-- ===== src/Prelude/Maps.antt =====
-- JavaScript's `Map` as the list of its entries.
use mathlib.Core.Path.{◌≡◌, refl}
use mathlib.Core.Bool.{false, ◌&&◌}
use mathlib.Core.Option.{Option, none, some}
use mathlib.Core.List.{List, [], ◌∷◌, ◌++◌, append-nil}
use native.Mathlib.Omega.{arith}
use amrc_connectivity_stack.Prelude.Tests.{if◌then◌else◌, StrictEq, ◌==◌, ==_iff}

module _ {K V : Type 0} ⦃e : StrictEq K⦄ where
  -- `get`
  abbrev pub lookup : K → List (K × V) → Option V
  lookup k [] = none
  lookup k ((j, v) ∷ m) = if j == k then some v else lookup k m

  -- `set`, which keeps the place of a key that is there
  abbrev pub put : K → V → List (K × V) → List (K × V)
  put k v [] = (k, v) ∷ []
  put k v ((j, w) ∷ m) = if j == k then (j, v) ∷ m else (j, w) ∷ put k v m

  -- `delete`
  abbrev pub remove : K → List (K × V) → List (K × V)
  remove k [] = []
  remove k ((j, w) ∷ m) = if j == k then remove k m else (j, w) ∷ remove k m

  pub lookup-put :
      (k j : K) (v : V) (m : List (K × V))
      → lookup j (put k v m) ≡ (if k == j then some v else lookup j m)
  lookup-put k j v [] = refl
  lookup-put k j v ((i, w) ∷ m) =
      ground (arith, ==_iff i k, ==_iff i j, ==_iff k j, lookup-put k j v m)

  pub lookup-remove_self : (k : K) (m : List (K × V)) → lookup k (remove k m) ≡ none
  lookup-remove_self k [] = refl
  lookup-remove_self k ((j, w) ∷ m) = ground (arith, lookup-remove_self k m)

  pub lookup-remove_other :
      (k j : K) (m : List (K × V)) → (k == j) ≡ false → lookup j (remove k m) ≡ lookup j m
  lookup-remove_other k j [] h = refl
  lookup-remove_other k j ((i, w) ∷ m) h =
      ground (arith, ==_iff i k, ==_iff i j, ==_iff k j, lookup-remove_other k j m)

-- `??`
abbrev pub or_else : {A : Type 0} → Option A → A → A
or_else none a = a
or_else (some b) a = b

-- Dictionaries of dictionaries, the inner ones made when they are first needed.
module _ {K V : Type 0} ⦃e : StrictEq K⦄ where
  abbrev pub lookup_nested : K → K → List (K × List (K × V)) → Option V
  lookup_nested a p m = elim (lookup a m) [ none ↦ none | some n ↦ lookup p n ]

  abbrev pub put_nested : K → K → V → List (K × List (K × V)) → List (K × List (K × V))
  put_nested a p v m = put a (put p v (or_else (lookup a m) [])) m

  pub lookup_nested-put_nested :
      (a p b q : K) (v : V) (m : List (K × List (K × V)))
      → lookup_nested b q (put_nested a p v m)
        ≡ (if a == b && p == q then some v else lookup_nested b q m)
  lookup_nested-put_nested a p b q v m = ground (
    arith,
    ==_iff a b,
    lookup-put a b (put p v (or_else (lookup a m) [])) m,
    lookup-put p q v (or_else (lookup a m) []),
  )

-- Dictionaries of lists, which grow at the end.
module _ {K V : Type 0} ⦃e : StrictEq K⦄ where
  abbrev pub listed : K → List (K × List V) → List V
  listed k m = or_else (lookup k m) []

  pub listed-put :
      (j k : K) (l : List V) (m : List (K × List V))
      → listed k (put j (listed j m ++ l) m) ≡ listed k m ++ (if j == k then l else [])
  listed-put j k l m =
      ground (arith, ==_iff j k, lookup-put j k (listed j m ++ l) m, append-nil (listed k m))
