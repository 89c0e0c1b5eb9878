-- ===== src/Auth/Store/Update.antt =====
-- Updating the row with an id keeps the constraints of the table, where the update is not refused.
use amrc_connectivity_stack.Prelude.{
  ℕ, ◌≡◌, inl, inr, refl, ap, false, not, ◌&&◌, List, [], ◌∷◌, arith, ◌==◌, string_eq, nat_eq, All,
  All-imp, All-imp_both, Distinct, ==_iff, Bool-cases,
}
use amrc_connectivity_stack.Auth.Store.{Ace, Given, same_key, row_of, update_row, clashes}
use amrc_connectivity_stack.Auth.Store.Rows.{same_id, same_uuid, key_clash, AreRows}

module _ (id : ℕ) (g : Given) where
  update_row-other :
      (rows : List Ace) → All (λ b. (b.id == id) ≡ false) rows → update_row id g rows ≡ rows
  unfolding update_row
  update_row-other [] h = refl
  update_row-other (b ∷ rows) (hb, h) = rw hb (ap (b ∷◌) (update_row-other rows h))

  -- What the new values keep, the update keeps.
  pub update_row-All :
      (P : Ace → Type 0)
      → ((a : Ace) → P a → P (row_of a.id a.uuid g))
      → (rows : List Ace) → All P rows
      → All P (update_row id g rows)
  unfolding update_row
  update_row-All P f [] h = tt
  update_row-All P f (b ∷ rows) (hb, h) = elim (Bool-cases (b.id == id)) [
    | inl y ↦ rw y (f b hb, update_row-All P f rows h)
    | inr n ↦ rw n (hb, update_row-All P f rows h)
  ]

  ids-update_row :
      (rows : List Ace) → Distinct same_id rows → Distinct same_id (update_row id g rows)
  unfolding update_row
  ids-update_row [] d = tt
  ids-update_row (b ∷ rows) (hb, d) =
      let later = update_row-All (λ c. same_id b c ≡ false) (λ c f. f) rows hb in
      elim (Bool-cases (b.id == id)) [
        | inl y ↦ rw y (later, ids-update_row rows d)
        | inr n ↦ rw n (later, ids-update_row rows d)
      ]

  uuids-update_row :
      (rows : List Ace) → Distinct same_uuid rows → Distinct same_uuid (update_row id g rows)
  unfolding update_row
  uuids-update_row [] d = tt
  uuids-update_row (b ∷ rows) (hb, d) =
      let later = update_row-All (λ c. same_uuid b c ≡ false) (λ c f. f) rows hb in
      elim (Bool-cases (b.id == id)) [
        | inl y ↦ rw y (later, uuids-update_row rows d)
        | inr n ↦ rw n (later, uuids-update_row rows d)
      ]

  clashes-false :
      (rows : List Ace)
      → clashes id g rows ≡ false
      → All (λ b. (not (b.id == id) && same_key g b) ≡ false) rows
  unfolding clashes
  clashes-false [] e = tt
  clashes-false (b ∷ rows) e = ground (arith, clashes-false rows)

  key_clash_sym :
      (a : Ace) → same_key g a ≡ false → (b : Ace) → key_clash a (row_of b.id b.uuid g) ≡ false
  key_clash_sym a n b = ground (
    arith,
    ==_iff g.principal a.principal,
    ==_iff a.principal g.principal,
    ==_iff g.permission a.permission,
    ==_iff a.permission g.permission,
    ==_iff g.target a.target,
    ==_iff a.target g.target,
  )

  keys-update_row :
      (rows : List Ace)
      → Distinct same_id rows
      → Distinct key_clash rows
      → All (λ b. (not (b.id == id) && same_key g b) ≡ false) rows
      → Distinct key_clash (update_row id g rows)
  unfolding update_row
  keys-update_row [] i d c = tt
  keys-update_row (b ∷ rows) (ib, i) (kb, k) (cb, c) = elim (Bool-cases (b.id == id)) [
    | inl y ↦
        let others : All (λ a. (a.id == id) ≡ false) rows =
          All-imp (λ a. same_id b a ≡ false) (λ a. (a.id == id) ≡ false) rows
            (λ a n. ground (arith, ==_iff b.id id)) ib in
        rw (y, update_row-other rows others)
          (
            All-imp_both (λ a. (a.id == id) ≡ false)
                (λ a. (not (a.id == id) && same_key g a) ≡ false) (λ a. same_key g a ≡ false) rows
                (λ a n m. ground arith) others c,
            k,
          )
    | inr n ↦
        let apart : same_key g b ≡ false = ground arith in
        rw n (
          update_row-All (λ a. key_clash b a ≡ false) (λ a f. key_clash_sym b apart a) rows kb,
          keys-update_row rows i k c,
        )
  ]

  pub update_row-AreRows :
      (rows : List Ace) → AreRows rows → clashes id g rows ≡ false → AreRows (update_row id g rows)
  update_row-AreRows rows h e = record {
    ids = ids-update_row rows h.ids;
    uuids = uuids-update_row rows h.uuids;
    keys = keys-update_row rows h.ids h.keys (clashes-false rows e);
  }
