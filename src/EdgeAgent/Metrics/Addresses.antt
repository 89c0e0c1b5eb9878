-- ===== src/EdgeAgent/Metrics/Addresses.antt =====
-- The metrics that are read at an address (acs-edge/lib/helpers/typeHandler.ts, `getByAddress`).
use mathlib.Core.List.{map}
use amrc_connectivity_stack.Prelude.{
  ℕ, suc, ◌≡◌, refl, sym, ap, ◌∙◌, inl, inr, Bool, false, List, [], ◌∷◌, ◌++◌, append_assoc,
  append-nil, Option, none, some, if◌then◌else◌, ◌==◌, nat_eq, list_eq, length, length-append,
  lookup, listed, listed-put, or_else, filter, flat_map, Bool-cases, arith,
}
use amrc_connectivity_stack.Text.{Text}
use amrc_connectivity_stack.EdgeAgent.Types.{Metric}
use amrc_connectivity_stack.EdgeAgent.Metrics.{
  nth, Indices, no_indices, index_at, index_metric, build_from, readable_addr, path_of,
  build_indices, of_array, get_by_address,
}
use amrc_connectivity_stack.EdgeAgent.Metrics.Building.{nth-length}

abbrev pub twice : {A : Type 0} → A → List A
twice a = a ∷ a ∷ []

abbrev pub is_addr : Option Text → Text → Bool
is_addr none a = false
is_addr (some b) a = b == a

-- The indices under an address.
abbrev under : Text → Indices → List ℕ
under a x = listed a x.addr_index

under-index_at :
    (o : Option Text) (q n : Text) (i : ℕ) (x : Indices) (a : Text)
    → under a (index_at o q n i x) ≡ (under a x ++ (if is_addr o a then twice i else []))
unfolding index_at
under-index_at none q n i x a = sym (append-nil _)
under-index_at (some b) q n i x a = listed-put b a (twice i) x.addr_index

module _ {F : Type 0} where
  abbrev pub read_from : Text → Metric F → Bool
  read_from a m = is_addr (readable_addr m) a

  abbrev indices_from : Text → ℕ → List (Metric F) → List ℕ
  indices_from a i [] = []
  indices_from a i (m ∷ ms) = (if read_from a m then twice i else []) ++ indices_from a (suc i) ms

  under-build_from :
      (a : Text) (i : ℕ) (ms : List (Metric F)) (x : Indices)
      → under a (build_from i ms x) ≡ under a x ++ indices_from a i ms
  unfolding build_from index_metric
  under-build_from a i [] x = sym (append-nil _)
  under-build_from a i (m ∷ ms) x =
      let y : Indices = index_at (readable_addr m) (path_of m) (or_else m.name []) i x in
      under-build_from a (suc i) ms y
      ∙ ap (λ l. l ++ indices_from a (suc i) ms)
          (under-index_at (readable_addr m) (path_of m) (or_else m.name []) i x a)
      ∙ append_assoc (under a x) _ _

  nth-indices_from :
      (a : Text) (pre ms : List (Metric F))
      → map (λ i. nth i (pre ++ ms)) (indices_from a (length pre) ms)
        ≡ flat_map (λ (m : Metric F). twice (some m)) (filter (read_from a) ms)
  nth-indices_from a pre [] = refl
  nth-indices_from a pre (m ∷ ms) =
      let l : length (pre ++ (m ∷ [])) ≡ suc (length pre) =
        omega (arith, length-append pre (m ∷ [])) in
      let ih : map (λ i. nth i (pre ++ (m ∷ ms))) (indices_from a (suc (length pre)) ms)
          ≡ flat_map (λ (m : Metric F). twice (some m)) (filter (read_from a) ms) =
        rw (← l, ← append_assoc pre (m ∷ []) ms) (nth-indices_from a (pre ++ (m ∷ [])) ms) in
      elim (Bool-cases (read_from a m)) [
        | inl e ↦ rw (e, nth-length pre m ms, ih) refl
        | inr e ↦ rw (e, ih) refl
      ]

  -- A new object's `getByAddress` gives each metric that is read at the address twice, in the order of
  -- the array.
  get_by_address-of_array :
      (a : Text) (ms : List (Metric F))
      → or_else (get_by_address a (of_array ms)) []
        ≡ flat_map (λ (m : Metric F). twice (some m)) (filter (read_from a) ms)
  unfolding get_by_address of_array build_indices
  get_by_address-of_array a ms =
      or_else-map (λ i. nth i ms) (lookup a (build_from 0 ms no_indices).addr_index)
      ∙ ap (map (λ i. nth i ms)) (under-build_from a 0 ms no_indices)
      ∙ nth-indices_from a [] ms
    where
      or_else-map :
          (f : ℕ → Option (Metric F)) (o : Option (List ℕ))
          → or_else
              (elim o as (λ _. Option (List (Option (Metric F)))) [
                | none ↦ none
                | some is ↦ some (map f is)
              ])
              []
            ≡ map f (or_else o [])
      or_else-map f none = refl
      or_else-map f (some is) = refl
