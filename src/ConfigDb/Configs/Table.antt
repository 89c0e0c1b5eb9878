-- ===== src/ConfigDb/Configs/Table.antt =====
-- The table `config`: what a write or a removal does to the config that each key has.
use amrc_connectivity_stack.Prelude.{
  ℕ, ◌≡◌, refl, subst, Bool, true, false, ◌&&◌, List, [], ◌∷◌, ◌++◌, Option, none, some, arith,
  if◌then◌else◌, ◌==◌, nat_eq, string_eq, StrictEq, In, All, All-In, Distinct, Bool-cases, inl, inr,
}
use amrc_connectivity_stack.Text.{Text}
use amrc_connectivity_stack.ConfigDb.Configs.{Row, is_at, find_config}
use amrc_connectivity_stack.ConfigDb.Configs.Transactions.{set_json, delete_row}

abbrev pub is_key : ℕ → ℕ → ℕ → ℕ → Bool
is_key app object b p = b == app && p == object

module _ {J : Type 0} where
  abbrev pub json_of : Option (Row J) → Option J
  json_of none = none
  json_of (some r) = some r.json

  -- The config of a key.
  abbrev pub json_at : ℕ → ℕ → List (Row J) → Option J
  json_at app object rows = json_of (find_config app object rows)

  abbrev pub same_id : Row J → Row J → Bool
  same_id r s = r.id == s.id

  abbrev pub same_key : Row J → Row J → Bool
  same_key r s = is_at r.app r.object s

  find_config-In :
      (app object : ℕ) (rows : List (Row J)) (r : Row J)
      → find_config app object rows ≡ some r
      → In r rows
  unfolding find_config
  find_config-In app object [] r h = cc
  find_config-In app object (s ∷ rows) r h = elim (Bool-cases (is_at app object s)) [
    | inl e ↦ inl (ground (arith, h, e))
    | inr n ↦ inr (find_config-In app object rows r (ground (arith, h, n)))
  ]

  pub find_config-at :
      (app object : ℕ) (rows : List (Row J)) (r : Row J)
      → find_config app object rows ≡ some r
      → is_at app object r ≡ true
  unfolding find_config
  find_config-at app object [] r h = cc
  find_config-at app object (s ∷ rows) r h = elim (Bool-cases (is_at app object s)) [
    | inl e ↦
        let same : s ≡ r = ground (arith, h, e) in subst (λ x. is_at app object x ≡ true) same e
    | inr n ↦ find_config-at app object rows r (ground (arith, h, n))
  ]

  pub find_config-append :
      (app object b p : ℕ) (rows : List (Row J)) (r : Row J)
      → find_config app object rows ≡ none
      → is_at app object r ≡ true
      → json_at b p (rows ++ r ∷ [])
        ≡ (if is_key app object b p then some r.json else json_at b p rows)
  unfolding find_config
  find_config-append app object b p [] r h at = ground (arith, at)
  find_config-append app object b p (s ∷ rows) r h at =
      ground (arith, find_config-append app object b p rows r)

module _ {J : Type 0} ⦃e : StrictEq J⦄ where
  set_json_absent :
      (id : ℕ) (j : J) (t : Text) (rows : List (Row J))
      → All (λ s. (id == s.id) ≡ false) rows
      → set_json id j t rows ≡ rows
  set_json_absent id j t [] h = refl
  set_json_absent id j t (s ∷ rows) (hs, h) = ground (arith, set_json_absent id j t rows h)

  pub json_at-set_json :
      (app object b p : ℕ) (j : J) (t : Text) (rows : List (Row J)) (r : Row J)
      → Distinct same_id rows
      → find_config app object rows ≡ some r
      → json_at b p (set_json r.id j t rows)
        ≡ (if is_key app object b p then some j else json_at b p rows)
  unfolding find_config
  json_at-set_json app object b p j t [] r d h = cc
  json_at-set_json app object b p j t (s ∷ rows) r (ds, d) h =
      elim (Bool-cases (is_at app object s)) [
        | inl at ↦
            let same : s ≡ r = ground (arith, h, at) in
            subst
              (λ (x : Row J).
                json_at b p (set_json x.id j t (s ∷ rows))
                ≡ (if is_key app object b p then some j else json_at b p (s ∷ rows)))
              same (ground (arith, at, set_json_absent s.id j t rows ds))
        | inr n ↦
            let below : find_config app object rows ≡ some r = ground (arith, h, n) in
            let other =
              All-In (λ y. same_id s y ≡ false) r rows ds
                (find_config-In app object rows r below) in
            ground (arith, n, other, json_at-set_json app object b p j t rows r d below)
      ]

  delete_row_absent :
      (id : ℕ) (rows : List (Row J))
      → All (λ s. (id == s.id) ≡ false) rows
      → delete_row id rows ≡ rows
  delete_row_absent id [] h = refl
  delete_row_absent id (s ∷ rows) (hs, h) = ground (arith, delete_row_absent id rows h)

  find_config_absent :
      (app object : ℕ) (rows : List (Row J))
      → All (λ s. is_at app object s ≡ false) rows
      → find_config app object rows ≡ none
  unfolding find_config
  find_config_absent app object [] h = refl
  find_config_absent app object (s ∷ rows) (hs, h) =
      ground (arith, find_config_absent app object rows h)

  pub json_at-delete_row :
      (app object b p : ℕ) (rows : List (Row J)) (r : Row J)
      → Distinct same_id rows
      → Distinct same_key rows
      → find_config app object rows ≡ some r
      → json_at b p (delete_row r.id rows)
        ≡ (if is_key app object b p then none else json_at b p rows)
  unfolding find_config
  json_at-delete_row app object b p [] r d k h = cc
  json_at-delete_row app object b p (s ∷ rows) r (ds, d) (ks, k) h =
      elim (Bool-cases (is_at app object s)) [
        | inl at ↦
            let same : s ≡ r = ground (arith, h, at) in
            subst
              (λ (x : Row J).
                json_at b p (delete_row x.id (s ∷ rows))
                ≡ (if is_key app object b p then none else json_at b p (s ∷ rows)))
              same
              (ground (
                arith,
                at,
                delete_row_absent s.id rows ds,
                find_config_absent s.app s.object rows ks,
              ))
        | inr n ↦
            let below : find_config app object rows ≡ some r = ground (arith, h, n) in
            let other =
              All-In (λ y. same_id s y ≡ false) r rows ds
                (find_config-In app object rows r below) in
            ground (arith, n, other, json_at-delete_row app object b p rows r d k below)
      ]
