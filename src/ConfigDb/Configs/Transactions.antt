-- ===== src/ConfigDb/Configs/Transactions.antt =====
-- Writes and removals of configs (acs-configdb/lib/model.js, `_config_put` to `config_merge_patch`):
-- each transaction, and what is sent after it.
use amrc_connectivity_stack.Prelude.{
  ℕ, suc, String, not, List, [], ◌∷◌, ◌++◌, Option, none, some, if◌then◌else◌, ltb, ◌==◌, nat_eq,
  string_eq, StrictEq, filter, remove,
}
use amrc_connectivity_stack.Text.{Text}
use amrc_connectivity_stack.ConfigDb.Configs.{
  Row, change, config, class_update, Model, Outside, Check, run_check, Special, no_special,
  object_registration, config_schema, get_special, obj_id, find_config, config_validate,
}

module _ {J : Type 0} ⦃e : StrictEq J⦄ where
  -- The `update` of a row by its id, with a new etag.
  abbrev pub set_json : ℕ → J → Text → List (Row J) → List (Row J)
  set_json id j etag [] = []
  set_json id j etag (r ∷ rows) =
      let rest = set_json id j etag rows in
      if r.id == id then record r { json = j; etag = etag } ∷ rest else r ∷ rest

  abbrev pub set_configs : List (Row J) → Model J → Model J
  set_configs rows m = record m { configs = rows }

  -- The write of `_config_put`, after the checks; 299 is a write that changes nothing.
  unfoldable pub write_config : Outside J → Option (Row J) → ℕ → ℕ → J → Model J → ℕ × Model J
  write_config out (some old) app object j m =
      if old.json == j
      then (299, m)
      else (204, set_configs (set_json old.id j out.new_etag m.configs) m)
  write_config out none app object j m =
      let row : Row J = record {
        id = m.next_id;
        app = app;
        object = object;
        json = j;
        etag = out.new_etag;
      } in
      (201, record m { configs = m.configs ++ row ∷ []; next_id = suc m.next_id })

  -- `_config_put`; `none` is an exception, which rolls back the transaction.
  unfoldable pub put_row :
      Outside J → Special → Option (Row J) → ℕ → ℕ → J → Model J → Option (ℕ × Model J)
  put_row out special old app object j m = elim (config_validate out special app object j m) [
    | none ↦ none
    | some (st, m') ↦
        if ltb 299 st then some (st, m') else some (write_config out old app object j m')
  ]

  abbrev pub etag_of : Option (Row J) → Option Text
  etag_of none = none
  etag_of (some r) = some r.etag

  -- The transaction of `config_put`.
  unfoldable pub put_txn :
      Outside J → String → String → J → Option Check → Model J → Option (ℕ × Model J)
  put_txn out app object j check m = elim (obj_id app m.objects) [
    | none ↦ some (404, m)
    | some a ↦ elim (obj_id object m.objects) [
      | none ↦ some (404, m)
      | some o ↦
          let old = find_config a o m.configs in
          elim (run_check check (etag_of old)) [
            | some st ↦ some (st, m)
            | none ↦ put_row out (get_special app) old a o j m
          ]
    ]
  ]

  abbrev pub notify_special : Special → Model J → Model J
  notify_special object_registration m = record m { updates = class_update ∷ m.updates }
  notify_special _ m = m

  -- The events of a write or a removal, then those of the special application; latest first.
  abbrev pub notify : String → String → Option J → Model J → Model J
  notify app object j m =
      notify_special (get_special app)
        (record m { updates = config app object j ∷ change app ∷ m.updates })

  -- What is sent after the transaction, and the status that is answered.
  abbrev pub after_put : String → String → J → Model J → Option (ℕ × Model J) → Option ℕ × Model J
  after_put app object j m none = (none, m)
  after_put app object j m (some (st, m')) = (
    some (if st == 299 then 204 else st),
    if ltb st 299 then notify app object (some j) m' else m',
  )

  unfoldable pub config_put :
      Outside J → String → String → J → Option Check → Model J → Option ℕ × Model J
  config_put out app object j check m = after_put app object j m (put_txn out app object j check m)

  abbrev pub delete_row : ℕ → List (Row J) → List (Row J)
  delete_row id = filter (λ r. not (r.id == id))

  -- `SpecialApp.delete` of each kind.
  abbrev pub special_delete : Special → ℕ → Model J → ℕ × Model J
  special_delete no_special object m = (204, m)
  special_delete object_registration object m = (405, m)
  special_delete config_schema object m = (204, record m { schemas = remove object m.schemas })

  abbrev pub row_at : String → String → Model J → Option (Row J)
  row_at app object m = elim (obj_id app m.objects) [
    | none ↦ none
    | some a ↦ elim (obj_id object m.objects) [ none ↦ none | some o ↦ find_config a o m.configs ]
  ]

  abbrev pub delete_found : Special → Row J → Model J → ℕ × Model J
  delete_found special r m =
      let (st, m') = special_delete special r.object m in
      if ltb 299 st then (st, m') else (204, set_configs (delete_row r.id m'.configs) m')

  -- The transaction of `config_delete`.
  unfoldable pub delete_txn : String → String → Option Check → Model J → ℕ × Model J
  delete_txn app object check m =
      let conf = row_at app object m in
      elim (run_check check (etag_of conf)) [
        | some st ↦ (st, m)
        | none ↦ elim conf [ none ↦ (404, m) | some r ↦ delete_found (get_special app) r m ]
      ]

  unfoldable pub config_delete : String → String → Option Check → Model J → ℕ × Model J
  config_delete app object check m =
      let (st, m') = delete_txn app object check m in
      (st, if st == 204 then notify app object none m' else m')

  -- The transaction of `config_merge_patch`, with the config that it makes.
  unfoldable pub patch_txn :
      Outside J → String → String → J → Option Check → Model J → Option (ℕ × J × Model J)
  patch_txn out app object patch check m = elim (obj_id app m.objects) [
    | none ↦ some (404, patch, m)
    | some a ↦ elim (obj_id object m.objects) [
      | none ↦ some (404, patch, m)
      | some o ↦
          let old = find_config a o m.configs in
          let json : J = elim old [ none ↦ out.null_json | some r ↦ r.json ] in
          elim (run_check check (etag_of old)) [
            | some st ↦ some (st, patch, m)
            | none ↦
                if out.is_plain_object json
                then elim (put_row out (get_special app) old a o (out.merge json patch) m) [
                  | none ↦ none
                  | some (st, m') ↦ some (st, out.merge json patch, m')
                ]
                else some (409, patch, m)
          ]
    ]
  ]

  unfoldable pub config_merge_patch :
      Outside J → String → String → J → Option Check → Model J → Option ℕ × Model J
  config_merge_patch out app object patch check m = elim (patch_txn out app object patch check m) [
    | none ↦ (none, m)
    | some (st, j, m') ↦ after_put app object j m (some (st, m'))
  ]
