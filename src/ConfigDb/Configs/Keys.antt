-- ===== src/ConfigDb/Configs/Keys.antt =====
-- The keys of the table `config` under every operation.
use amrc_connectivity_stack.Prelude.{
  ℕ, suc, ◌≡◌, refl, ◌∙◌, Bool, true, false, List, [], ◌∷◌, ◌++◌, Option, none, some, arith, ltb,
  ◌==◌, nat_eq, string_eq, StrictEq, All, All-imp, Distinct, Bool-cases, inl, inr, if_holds,
}
use amrc_connectivity_stack.Text.{Text}
use amrc_connectivity_stack.ConfigDb.Configs.{Row, Model, Outside, is_at, find_config}
use amrc_connectivity_stack.ConfigDb.Configs.Transactions.{set_json, write_config}
use amrc_connectivity_stack.ConfigDb.Configs.Table.{same_id, same_key}
use amrc_connectivity_stack.ConfigDb.Configs.Writes.{IsKeyed}

append-All {ℓ} :
    {A : Type ℓ} (P : A → Type 0) (xs : List A) (x : A) → All P xs → P x → All P (xs ++ x ∷ [])
append-All P [] x h hx = (hx, tt)
append-All P (y ∷ xs) x (hy, h) hx = (hy, append-All P xs x h hx)

module _ {J : Type 0} ⦃e : StrictEq J⦄ where
  -- Ids are below the sequence, and no id and no pair of app and object occurs twice.
  abbrev pub IsTable : Model J → Type 0
  IsTable m = IsKeyed m.configs × All (λ r. ltb r.id m.next_id ≡ true) m.configs

  set_json-All :
      (P : Row J → Type 0) (id : ℕ) (j : J) (t : Text) (rows : List (Row J))
      → ((r : Row J) → P r → P (record r { json = j; etag = t }))
      → All P rows
      → All P (set_json id j t rows)
  set_json-All P id j t [] f h = tt
  set_json-All P id j t (r ∷ rows) f (hr, h) =
      if_holds (All P) (r.id == id) _ _ (λ x. (f r hr, set_json-All P id j t rows f h))
        (λ x. (hr, set_json-All P id j t rows f h))

  -- A clash that does not look at the config.
  module _ (clash : Row J → Row J → Bool) where
    abbrev Blind : Type 0
    Blind =
        (r s : Row J) (j : J) (t : Text)
        → (clash (record r { json = j; etag = t }) s ≡ clash r s)
          × (clash r (record s { json = j; etag = t }) ≡ clash r s)

    set_json-Distinct :
        (id : ℕ) (j : J) (t : Text) (rows : List (Row J))
        → Blind
        → Distinct clash rows
        → Distinct clash (set_json id j t rows)
    set_json-Distinct id j t [] f h = tt
    set_json-Distinct id j t (r ∷ rows) f (hr, h) =
        let rest = set_json-Distinct id j t rows f h in
        let apart =
          set_json-All (λ s. clash r s ≡ false) id j t rows (λ s x. (f r s j t).1 ∙ x) hr in
        if_holds (Distinct clash) (r.id == id) _ _
          (λ x. (All-imp (λ s. clash r s ≡ false) _ _ (λ s y. (f r s j t).0 ∙ y) apart, rest))
          (λ x. (apart, rest))

    append-Distinct :
        (rows : List (Row J)) (r : Row J)
        → All (λ s. clash s r ≡ false) rows
        → Distinct clash rows
        → Distinct clash (rows ++ r ∷ [])
    append-Distinct [] r h d = (tt, tt)
    append-Distinct (s ∷ rows) r (hs, h) (ds, d) =
        (append-All (λ y. clash s y ≡ false) rows r ds hs, append-Distinct rows r h d)

  absent-All :
      (a o : ℕ) (rows : List (Row J))
      → find_config a o rows ≡ none
      → All (λ s. is_at a o s ≡ false) rows
  unfolding find_config
  absent-All a o [] h = tt
  absent-All a o (s ∷ rows) h = elim (Bool-cases (is_at a o s)) [
    | inl f ↦ absurd (ground (arith, h, f))
    | inr f ↦ (f, absent-All a o rows (ground (arith, h, f)))
  ]

  pub write_config-IsTable :
      (out : Outside J) (old : Option (Row J)) (a o : ℕ) (j : J) (m : Model J)
      → find_config a o m.configs ≡ old
      → IsTable m
      → IsTable (write_config out old a o j m).1
  unfolding write_config
  write_config-IsTable out (some r) a o j m x ((ids, keys), below) =
      if_holds (λ (r : ℕ × Model J). IsTable r.1) (r.json == j) _ _ (λ f. ((ids, keys), below))
        (λ f. (
          (
            set_json-Distinct same_id r.id j out.new_etag m.configs (λ r s j t. (refl, refl)) ids,
            set_json-Distinct same_key r.id j out.new_etag m.configs (λ r s j t. (refl, refl)) keys,
          ),
          set_json-All (λ r. ltb r.id m.next_id ≡ true) r.id j out.new_etag m.configs (λ r h. h)
              below,
        ))
  write_config-IsTable out none a o j m x ((ids, keys), below) =
      let row : Row J = record {
        id = m.next_id;
        app = a;
        object = o;
        json = j;
        etag = out.new_etag;
      } in
      (
        (
          append-Distinct same_id m.configs row
              (All-imp (λ s. ltb s.id m.next_id ≡ true) (λ s. same_id s row ≡ false) m.configs
                (λ s h. ground (arith, h)) below)
              ids,
          append-Distinct same_key m.configs row
              (All-imp (λ s. is_at a o s ≡ false) (λ s. same_key s row ≡ false) m.configs
                (λ s h. ground (arith, h)) (absent-All a o m.configs x))
              keys,
        ),
        append-All (λ r. ltb r.id (suc m.next_id) ≡ true) m.configs row
            (All-imp (λ s. ltb s.id m.next_id ≡ true) (λ s. ltb s.id (suc m.next_id) ≡ true)
              m.configs (λ s h. ground (arith, h)) below)
            (ground arith),
      )
