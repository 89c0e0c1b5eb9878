-- ===== src/EdgeAgent/Metrics/Building.antt =====
-- What the indices of `Metrics` find, in the order of the array
-- (acs-edge/lib/helpers/typeHandler.ts, `#buildIndices`).
use amrc_connectivity_stack.Prelude.{
  ℕ, zero, suc, ◌≡◌, refl, subst, inl, inr, Bool, false, ◌&&◌, List, [], ◌∷◌, ◌++◌, Option, none,
  some, if◌then◌else◌, ◌==◌, nat_eq, list_eq, length, length-append, append_assoc, lookup,
  lookup-put, or_else, lookup_nested-put_nested, Bool-cases, Option-cases, arith,
}
use amrc_connectivity_stack.Text.{Text}
use amrc_connectivity_stack.EdgeAgent.Types.{Metric}
use amrc_connectivity_stack.EdgeAgent.Metrics.{
  nth, modify, Indices, readable_addr, path_of, index_at, index_metric, build_from, addr_path,
}

abbrev pub first_of : {A : Type 0} → Option A → Option A → Option A
first_of none b = b
first_of (some a) b = some a

module _ {A : Type 0} where
  -- The last element that passes the test, and its index counted from `i`.
  unfoldable pub find_last : (A → Bool) → List A → Option A
  find_last P [] = none
  find_last P (m ∷ ms) = first_of (find_last P ms) (if P m then some m else none)

  unfoldable pub last_index : (A → Bool) → ℕ → List A → Option ℕ
  last_index P i [] = none
  last_index P i (m ∷ ms) = first_of (last_index P (suc i) ms) (if P m then some i else none)

  abbrev pub at : Option ℕ → List A → Option A
  at none xs = none
  at (some i) xs = nth i xs

  pub nth-length :
      (pre : List A) (m : A) (ms : List A) → nth (length pre) (pre ++ (m ∷ ms)) ≡ some m
  unfolding nth
  nth-length [] m ms = refl
  nth-length (x ∷ pre) m ms = nth-length pre m ms

  last_index-none :
      (P : A → Bool) (i : ℕ) (ms : List A) → last_index P i ms ≡ none → find_last P ms ≡ none
  unfolding last_index find_last
  last_index-none P i [] h = refl
  last_index-none P i (m ∷ ms) h = ground (arith, last_index-none P (suc i) ms)

  pub last_index-some :
      (P : A → Bool) (i j : ℕ) (ms : List A)
      → last_index P i ms ≡ some j
      → (m : A) × (find_last P ms ≡ some m)
  unfolding last_index find_last
  last_index-some P i j [] h = cc
  last_index-some P i j (m ∷ ms) h = elim (Option-cases (find_last P ms)) [
    | inl e ↦ elim (Option-cases (last_index P (suc i) ms)) [
      | inl d ↦ elim (Bool-cases (P m)) [ inl p ↦ (m, rw (e, p) refl) | inr p ↦ ground arith ]
      | inr (k, d) ↦ let (y, q) = last_index-some P (suc i) k ms d in cc
    ]
    | inr (x, e) ↦ (x, rw e refl)
  ]

  -- The element at the last index is the last element.
  pub at-last_index :
      (P : A → Bool) (pre ms : List A)
      → at (last_index P (length pre) ms) (pre ++ ms) ≡ find_last P ms
  unfolding last_index find_last
  at-last_index P pre [] = refl
  at-last_index P pre (m ∷ ms) =
      let l : length (pre ++ (m ∷ [])) ≡ suc (length pre) =
        omega (arith, length-append pre (m ∷ [])) in
      let ih : at (last_index P (suc (length pre)) ms) (pre ++ (m ∷ ms)) ≡ find_last P ms =
        rw (← l, ← append_assoc pre (m ∷ []) ms) (at-last_index P (pre ++ (m ∷ [])) ms) in
      elim (Option-cases (last_index P (suc (length pre)) ms)) [
        | inl e ↦ elim (Bool-cases (P m)) [
          | inl p ↦ rw (e, last_index-none P (suc (length pre)) ms e, p, nth-length pre m ms) refl
          | inr p ↦ rw (e, last_index-none P (suc (length pre)) ms e, p) refl
        ]
        | inr (j, e) ↦
            let (y, q) = last_index-some P (suc (length pre)) j ms e in
            let ih' : at (some j) (pre ++ (m ∷ ms)) ≡ find_last P ms =
              subst (λ o. at o (pre ++ (m ∷ ms)) ≡ find_last P ms) e ih in
            rw (e, ih', q) refl
      ]

  pub last_index-append :
      (P : A → Bool) (i : ℕ) (xs ys : List A)
      → first_of (last_index P i (xs ++ ys)) (last_index P i xs) ≡ last_index P i (xs ++ ys)
  unfolding last_index
  last_index-append P i [] ys = ground arith
  last_index-append P i (x ∷ xs) ys = ground (arith, last_index-append P (suc i) xs ys)

  -- A change that the test does not see.
  pub last_index-modify :
      (P : A → Bool) (f : A → A) (i j : ℕ) (xs : List A)
      → ((x : A) → P (f x) ≡ P x)
      → last_index P i (modify f j xs) ≡ last_index P i xs
  unfolding last_index modify
  last_index-modify P f i j [] h = refl
  last_index-modify P f i zero (x ∷ xs) h = rw (h x) refl
  last_index-modify P f i (suc j) (x ∷ xs) h = rw (last_index-modify P f (suc i) j xs h) refl

lookup-index_at :
    (o : Option Text) (q n : Text) (i : ℕ) (x : Indices) (k : Text)
    → lookup k (index_at o q n i x).name_index ≡ (if n == k then some i else lookup k x.name_index)
unfolding index_at
lookup-index_at none q n i x k = lookup-put n k i x.name_index
lookup-index_at (some b) q n i x k = lookup-put n k i x.name_index

-- The address and the path are those asked for.
abbrev pub is_at : Option Text → Text → Text → Text → Bool
is_at none q a p = false
is_at (some b) q a p = b == a && q == p

addr_path-index_at :
    (o : Option Text) (q n : Text) (i : ℕ) (x : Indices) (a p : Text)
    → addr_path a p (index_at o q n i x) ≡ (if is_at o q a p then some i else addr_path a p x)
unfolding addr_path index_at
addr_path-index_at none q n i x a p = refl
addr_path-index_at (some b) q n i x a p = lookup_nested-put_nested b q a p i x.addr_path_index

module _ {F : Type 0} where
  -- The name of a metric, and the address and path it is read at.
  abbrev pub named : Text → Metric F → Bool
  named n m = or_else m.name [] == n

  abbrev pub read_at : Text → Text → Metric F → Bool
  read_at a p m = is_at (readable_addr m) (path_of m) a p

  pub lookup-build_from :
      (n : Text) (i : ℕ) (ms : List (Metric F)) (x : Indices)
      → lookup n (build_from i ms x).name_index
        ≡ first_of (last_index (named n) i ms) (lookup n x.name_index)
  unfolding build_from index_metric last_index
  lookup-build_from n i [] x = refl
  lookup-build_from n i (m ∷ ms) x =
      let y : Indices = index_at (readable_addr m) (path_of m) (or_else m.name []) i x in
      ground (
        arith,
        lookup-build_from n (suc i) ms y,
        lookup-index_at (readable_addr m) (path_of m) (or_else m.name []) i x n,
      )

  pub addr_path-build_from :
      (a p : Text) (i : ℕ) (ms : List (Metric F)) (x : Indices)
      → addr_path a p (build_from i ms x)
        ≡ first_of (last_index (read_at a p) i ms) (addr_path a p x)
  unfolding build_from index_metric last_index
  addr_path-build_from a p i [] x = refl
  addr_path-build_from a p i (m ∷ ms) x =
      let y : Indices = index_at (readable_addr m) (path_of m) (or_else m.name []) i x in
      ground (
        arith,
        addr_path-build_from a p (suc i) ms y,
        addr_path-index_at (readable_addr m) (path_of m) (or_else m.name []) i x a p,
      )
