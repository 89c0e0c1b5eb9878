-- ===== src/EdgeAgent/Metrics/Finding.antt =====
-- The getters of `Metrics` beside its array, and its setters
-- (acs-edge/lib/helpers/typeHandler.ts).
use amrc_connectivity_stack.Prelude.{
  ℕ, zero, suc, ◌≡◌, refl, sym, ap, ◌∙◌, subst, ◌≢◌, inl, inr, Bool, true, false, List, [], ◌∷◌,
  Option, none, some, if◌then◌else◌, ◌==◌, nat_eq, list_eq, ==_iff, lookup, or_else, In,
  Option-cases, Bool-cases, arith,
}
use amrc_connectivity_stack.Text.{Text}
use amrc_connectivity_stack.EdgeAgent.Types.{Metric, Value}
use amrc_connectivity_stack.EdgeAgent.Metrics.{
  nth, modify, keys, Clock, Metrics, addr_path, at_index, updated, set_value_by_index, set_value_at,
  set_value_by_addr_path, get_by_name, get_by_addr_path, get_paths_for_addr,
}
use amrc_connectivity_stack.EdgeAgent.Metrics.Building.{
  find_last, last_index, at, at-last_index, last_index-some, named, read_at,
}
use amrc_connectivity_stack.EdgeAgent.Metrics.Lookup.{IsIndexed, Made, Made-IsIndexed}

false-true : false ≡ true → ⊥
false-true e = subst (λ b. if b then ⊥ else Unit) e tt

pub none-some : {A : Type 0} {a : A} → none ≡ some a → ⊥
none-some h = subst (λ o. elim o [ none ↦ Unit | some _ ↦ ⊥ ]) h tt

lookup_of_key :
    {V : Type 0} (k : Text) (m : List (Text × V)) → In k (keys m) → (v : V) × (lookup k m ≡ some v)
lookup_of_key k [] h = absurd h
lookup_of_key k ((j, v) ∷ m) h = elim (Bool-cases (j == k)) [
  | inl e ↦ (v, rw e refl)
  | inr e ↦ elim h [
    | inl d ↦ let f : false ≡ true = sym e ∙ (==_iff j k).1 (sym d) in elim (false-true f) [ ]
    | inr i ↦ let (w, q) = lookup_of_key k m i in (w, rw (e, q) refl)
  ]
]

module _ {A : Type 0} where
  find_last_passes : (P : A → Bool) (ms : List A) (m : A) → find_last P ms ≡ some m → P m ≡ true
  unfolding find_last
  find_last_passes P [] m h = cc
  find_last_passes P (x ∷ ms) m h = ground (arith, find_last_passes P ms m)

  pub nth-modify_self :
      (f : A → A) (i : ℕ) (xs : List A) (x : A)
      → nth i xs ≡ some x
      → nth i (modify f i xs) ≡ some (f x)
  unfolding nth modify
  nth-modify_self f i [] x h = cc
  nth-modify_self f zero (y ∷ xs) x h = ground arith
  nth-modify_self f (suc i) (y ∷ xs) x h = nth-modify_self f i xs x h

  nth-modify_other : (f : A → A) (i j : ℕ) (xs : List A) → i ≢ j → nth j (modify f i xs) ≡ nth j xs
  unfolding nth modify
  nth-modify_other f i j [] h = refl
  nth-modify_other f zero zero (y ∷ xs) h = absurd (h refl)
  nth-modify_other f zero (suc j) (y ∷ xs) h = refl
  nth-modify_other f (suc i) zero (y ∷ xs) h = refl
  nth-modify_other f (suc i) (suc j) (y ∷ xs) h = nth-modify_other f i j xs (ground arith)

module _ {F : Type 0} where
  get_by_name_of_IsIndexed :
      (n : Text) (x : Metrics F) → IsIndexed x → get_by_name n x ≡ find_last (named n) x.array
  unfolding get_by_name
  get_by_name_of_IsIndexed n x h =
      ap (at_index x) (h.names n)
      ∙ at_at (last_index (named n) 0 x.array)
      ∙ at-last_index (named n) [] x.array
    where
      at_at : (o : Option ℕ) → at_index x o ≡ at o x.array
      at_at none = refl
      at_at (some i) = refl

  get_by_addr_path_of_IsIndexed :
      (a p : Text) (x : Metrics F)
      → IsIndexed x
      → get_by_addr_path a p x ≡ find_last (read_at a p) x.array
  unfolding get_by_addr_path
  get_by_addr_path_of_IsIndexed a p x h =
      ap (at_index x) (h.paths a p)
      ∙ at_at (last_index (read_at a p) 0 x.array)
      ∙ at-last_index (read_at a p) [] x.array
    where
      at_at : (o : Option ℕ) → at_index x o ≡ at o x.array
      at_at none = refl
      at_at (some i) = refl

  -- However an object was made and changed by its operations, `getByName` gives the last metric of its
  -- array with the name, and `getByAddrPath` the last that is read at the address and path.
  pub get_by_name-find_last :
      (x : Metrics F) (n a p : Text)
      → Made x
      → (get_by_name n x ≡ find_last (named n) x.array)
        × (get_by_addr_path a p x ≡ find_last (read_at a p) x.array)
  get_by_name-find_last x n a p w =
      let h = Made-IsIndexed x w in
      (get_by_name_of_IsIndexed n x h, get_by_addr_path_of_IsIndexed a p x h)

  -- For each path that `getPathsForAddr` gives for an address, `getByAddrPath` gives a metric, and one
  -- that is read at that address and path.
  pub get_by_addr_path-get_paths_for_addr :
      (x : Metrics F) (a p : Text)
      → Made x
      → In p (get_paths_for_addr a x)
      → (m : Metric F) × (get_by_addr_path a p x ≡ some m) × (read_at a p m ≡ true)
  unfolding get_paths_for_addr addr_path
  get_by_addr_path-get_paths_for_addr x a p w i =
      let h = Made-IsIndexed x w in
      let (j, e) : (j : ℕ) × (addr_path a p x.indices ≡ some j) =
        indexed (lookup a x.indices.addr_path_index) i in
      let (m, q) = last_index-some (read_at a p) 0 j x.array (sym (h.paths a p) ∙ e) in
      (m, get_by_addr_path_of_IsIndexed a p x h ∙ q, find_last_passes (read_at a p) x.array m q)
    where
      indexed :
          (o : Option (List (Text × ℕ)))
          → In p (keys (or_else o []))
          → (j : ℕ) × (elim o as (λ _. Option ℕ) [ none ↦ none | some ps ↦ lookup p ps ] ≡ some j)
      indexed none h = absurd h
      indexed (some ps) h = lookup_of_key p ps h

  pub set_value_by_index-some :
      (c : Clock) (i : ℕ) (v : Value F) (t tns : Option ℕ) (x y : Metrics F)
      → set_value_by_index c i v t tns x ≡ some y
      → (m : Metric F) × (nth i x.array ≡ some m)
        × (y ≡ record x { array = modify (updated c v t tns) i x.array })
  unfolding set_value_by_index
  set_value_by_index-some c i v t tns x y e = elim (Option-cases (nth i x.array)) [
    | inl d ↦ ground arith
    | inr (m, d) ↦ (m, d, ground arith)
  ]

  -- A successful `setValueByAddrPath` changes the metric that `getByAddrPath` gave to the new value and
  -- times, which `getByAddrPath` gives then; what stands elsewhere in the array stays as it was.
  pub get_by_addr_path-set_value_by_addr_path :
      (c : Clock) (a p : Text) (v : Value F) (t tns : Option ℕ) (x y : Metrics F)
      → set_value_by_addr_path c a p v t tns x ≡ some y
      → (i : ℕ) × (m : Metric F) × (nth i x.array ≡ some m)
        × (get_by_addr_path a p x ≡ some m)
        × (get_by_addr_path a p y ≡ some (updated c v t tns m))
        × ((j : ℕ) → i ≢ j → nth j y.array ≡ nth j x.array)
  unfolding set_value_by_addr_path set_value_by_index get_by_addr_path
  get_by_addr_path-set_value_by_addr_path c a p v t tns x y e =
      elim (Option-cases (addr_path a p x.indices)) [
        | inl d ↦ elim (none-some (sym (ap (λ o. set_value_at c o v t tns x) d) ∙ e)) [ ]
        | inr (i, d) ↦
            let (m, g, q) =
              set_value_by_index-some c i v t tns x y
                (sym (ap (λ o. set_value_at c o v t tns x) d) ∙ e) in
            (
              i,
              m,
              g,
              ap (at_index x) d ∙ g,
              ap (λ (z : Metrics F). at_index z (addr_path a p z.indices)) q
                  ∙ ap (λ o. at_index (changed i) o) d
                  ∙ nth-modify_self (updated c v t tns) i x.array m g,
              λ j ne.
                  ap (λ (z : Metrics F). nth j z.array) q
                  ∙ nth-modify_other (updated c v t tns) i j x.array ne,
            )
      ]
    where
      changed : ℕ → Metrics F
      changed i = record x { array = modify (updated c v t tns) i x.array }
