-- ===== src/ConfigDb/Configs/Removals.antt =====
-- What `config_delete` comes to.
use amrc_connectivity_stack.Prelude.{
  ℕ, ◌≡◌, ◌≢◌, ◌⊎◌, refl, ◌∙◌, sym, ap, subst, String, false, List, ◌∷◌, Option, none, some, arith,
  if◌then◌else◌, ◌==◌, nat_eq, string_eq, StrictEq, Option-cases, inl, inr, option_holds,
}
use amrc_connectivity_stack.ConfigDb.Configs.{
  Row, change, config, Model, Check, run_check, Special, no_special, object_registration,
  config_schema, get_special, obj_id, find_config,
}
use amrc_connectivity_stack.ConfigDb.Configs.Transactions.{
  etag_of, notify, row_at, delete_found, delete_row, delete_txn, config_delete,
}
use amrc_connectivity_stack.ConfigDb.Configs.Table.{is_key, json_of, json_at, json_at-delete_row}
use amrc_connectivity_stack.ConfigDb.Configs.Writes.{IsKeyed}
use amrc_connectivity_stack.ConfigDb.Configs.Outcomes.{
  Refuses, notify_special-updates, notify_special-configs,
}

module _ {J : Type 0} ⦃e : StrictEq J⦄ where
  module _ (app object : String) (check : Option Check) (m : Model J) where
    -- Nothing is removed and nothing sent, with another status than 204.
    abbrev pub Leaves : ℕ × Model J → Type 0
    Leaves (st, m') = (m'.configs ≡ m.configs) × (m'.updates ≡ m.updates) × (st ≢ 204)

    -- The etag that was there passed the check, the key had a config and has none now, no other has
    -- changed, and the updates are sent.
    abbrev pub Removes : ℕ × Model J → Type 0
    Removes (st, m') =
        (a : ℕ) × (o : ℕ) × (obj_id app m.objects ≡ some a)
        × (obj_id object m.objects ≡ some o)
        × (run_check check (etag_of (find_config a o m.configs)) ≡ none)
        × (st ≡ 204)
        × (json_at a o m.configs ≢ none)
        × ((b p : ℕ)
            → json_at b p m'.configs ≡ (if is_key a o b p then none else json_at b p m.configs))
        × (m'.updates ≡ (notify app object none m).updates)

    -- `config_delete` after its transaction.
    abbrev finish : ℕ × Model J → ℕ × Model J
    finish r = (r.0, if r.0 == 204 then notify app object none r.1 else r.1)

    finish-Leaves : (st : ℕ) → st ≢ 204 → Leaves (finish (st, m))
    finish-Leaves st h =
        let p : (st == 204) ≡ false = ground (arith, h) in
        subst (λ b. Leaves (st, if b then notify app object none m else m)) (sym p) (refl, refl, h)

    removed :
        (a o : ℕ) (r : Row J) (schemas : List (ℕ × Option J))
        → obj_id app m.objects ≡ some a
        → obj_id object m.objects ≡ some o
        → IsKeyed m.configs
        → find_config a o m.configs ≡ some r
        → run_check check (etag_of (find_config a o m.configs)) ≡ none
        → Removes (
          204,
          notify app object none
              (record m { configs = delete_row r.id m.configs; schemas = schemas }),
        )
    removed a o r schemas ea eo (ids, keys) found ec =
        let add : Model J → Model J =
          λ n. record n { updates = config app object none ∷ change app ∷ n.updates } in
        let m' : Model J = record m { configs = delete_row r.id m.configs; schemas = schemas } in
        (
          a,
          o,
          ea,
          eo,
          ec,
          refl,
          (λ z. ground (arith, ap json_of found, z)),
          (λ b p.
              ap (json_at b p) (notify_special-configs (get_special app) (add m'))
              ∙ json_at-delete_row a o b p m.configs r ids keys found),
          notify_special-updates (get_special app) (add m) (add m') refl,
        )

    found_row :
        (r : Row J)
        → row_at app object m ≡ some r
        → (a : ℕ) × (o : ℕ) × (obj_id app m.objects ≡ some a)
          × (obj_id object m.objects ≡ some o)
          × (find_config a o m.configs ≡ some r)
    found_row r h = elim (Option-cases (obj_id app m.objects)) [
      | inl f ↦ absurd (ground (arith, h, f))
      | inr (a, ea) ↦ elim (Option-cases (obj_id object m.objects)) [
        | inl f ↦ absurd (ground (arith, h, ea, f))
        | inr (o, eo) ↦ (a, o, ea, eo, ground (arith, h, ea, eo))
      ]
    ]

    delete_found-Removes :
        (sp : Special) (a o : ℕ) (r : Row J)
        → obj_id app m.objects ≡ some a
        → obj_id object m.objects ≡ some o
        → IsKeyed m.configs
        → find_config a o m.configs ≡ some r
        → run_check check (etag_of (find_config a o m.configs)) ≡ none
        → Leaves (finish (delete_found sp r m)) ⊎ Removes (finish (delete_found sp r m))
    delete_found-Removes no_special a o r ea eo keyed found ec =
        inr (removed a o r m.schemas ea eo keyed found ec)
    delete_found-Removes object_registration a o r ea eo keyed found ec =
        inl (refl, refl, ground arith)
    delete_found-Removes config_schema a o r ea eo keyed found ec =
        inr (removed a o r _ ea eo keyed found ec)

    -- `config_delete` either keeps every config and sends nothing, with another status than 204; or
    -- the etag that was there passed the check, the key had a config and has none now, no other
    -- config has changed, and the updates are sent.
    pub config_delete-Removes :
        IsKeyed m.configs
        → Refuses check
        → Leaves (config_delete app object check m) ⊎ Removes (config_delete app object check m)
    unfolding config_delete delete_txn
    config_delete-Removes keyed refuses =
        let P : ℕ × Model J → Type 0 = λ r. Leaves (finish r) ⊎ Removes (finish r) in
        option_holds P (run_check check (etag_of (row_at app object m))) _ _
          (λ ec.
            option_holds P (row_at app object m) _ _ (λ f. inl (finish-Leaves 404 (ground arith)))
              (λ r f.
                let (a, o, ea, eo, found) = found_row r f in
                delete_found-Removes (get_special app) a o r ea eo keyed found
                  (ap (λ x. run_check check (etag_of x)) (found ∙ sym f) ∙ ec)))
          (λ st f. inl (finish-Leaves st (ground (arith, refuses _ st f))))
