-- ===== src/ConfigDb/Configs/Invariant.antt =====
-- Every operation on configs keeps the keys of the table.
use amrc_connectivity_stack.Prelude.{
  ℕ, ◌≡◌, sym, ap, subst, String, true, List, [], ◌∷◌, Option, none, some, if◌then◌else◌, ltb, ◌==◌,
  nat_eq, string_eq, StrictEq, All, All-filter, Distinct-filter, if_holds, option_holds, Left,
}
use amrc_connectivity_stack.ConfigDb.Configs.{
  Row, Model, Outside, Check, run_check, Special, no_special, object_registration, config_schema,
  get_special, obj_id, find_config, config_validate,
}
use amrc_connectivity_stack.ConfigDb.Configs.Transactions.{
  put_row, etag_of, put_txn, notify, notify_special, after_put, config_put, row_at, delete_found,
  delete_row, delete_txn, config_delete, patch_txn, config_merge_patch,
}
use amrc_connectivity_stack.ConfigDb.Configs.Table.{same_id, same_key}
use amrc_connectivity_stack.ConfigDb.Configs.Writes.{
  IsSame, IsKeyed, Validated, config_validate-Validated,
}
use amrc_connectivity_stack.ConfigDb.Configs.Keys.{IsTable, write_config-IsTable}

-- What one client asks of the configs.
pub data Request (J : Type 0) : Type 0 where
  put_config : Outside J → String → String → J → Option Check → Request J
  patch_config : Outside J → String → String → J → Option Check → Request J
  delete_config : String → String → Option Check → Request J

module _ {J : Type 0} ⦃e : StrictEq J⦄ where
  abbrev pub serve : Request J → Model J → Model J
  serve (put_config out app object j check) m = (config_put out app object j check m).1
  serve (patch_config out app object j check) m = (config_merge_patch out app object j check m).1
  serve (delete_config app object check) m = (config_delete app object check m).1

  abbrev pub serve_all : List (Request J) → Model J → Model J
  serve_all [] m = m
  serve_all (r ∷ rs) m = serve_all rs (serve r m)

  IsTable-of_IsSame : (m m' : Model J) → IsSame m m' → IsTable m → IsTable m'
  IsTable-of_IsSame m m' (c, u, n, x) h = (
    subst IsKeyed (sym c) h.0,
    subst (All (λ r. ltb r.id m'.next_id ≡ true)) (sym c)
        (subst (λ k. All (λ (r : Row J). ltb r.id k ≡ true) m.configs) (sym n) h.1),
  )

  put_row-IsTable :
      (out : Outside J) (sp : Special) (a o : ℕ) (j : J) (m : Model J)
      → IsTable m
      → Left (λ r. IsTable r.1) (put_row out sp (find_config a o m.configs) a o j m)
  unfolding put_row
  put_row-IsTable out sp a o j m h =
      option_holds (Left (λ r. IsTable r.1)) (config_validate out sp a o j m) _ _ (λ f. tt)
        (λ (st, m') f.
          let (s, ok) = subst (Left (Validated m)) f (config_validate-Validated out sp a o j m) in
          let h' = IsTable-of_IsSame m m' s h in
          if_holds (Left (λ r. IsTable r.1)) (ltb 299 st) _ _ (λ g. h')
            (λ g.
              write_config-IsTable out (find_config a o m.configs) a o j m'
                (ap (find_config a o) s.0) h'))

  notify_special-IsTable : (sp : Special) (m : Model J) → IsTable m → IsTable (notify_special sp m)
  notify_special-IsTable no_special m h = h
  notify_special-IsTable object_registration m h = h
  notify_special-IsTable config_schema m h = h

  after_put-IsTable :
      (app object : String) (j : J) (m : Model J) (r : Option (ℕ × Model J))
      → IsTable m
      → Left (λ r. IsTable r.1) r
      → IsTable (after_put app object j m r).1
  after_put-IsTable app object j m none h k = h
  after_put-IsTable app object j m (some (st, m')) h k =
      if_holds IsTable (ltb st 299) _ _ (λ f. notify_special-IsTable (get_special app) _ k) (λ f. k)

  config_put-IsTable :
      (out : Outside J) (app object : String) (j : J) (check : Option Check) (m : Model J)
      → IsTable m
      → IsTable (config_put out app object j check m).1
  unfolding config_put put_txn
  config_put-IsTable out app object j check m h =
      let P : Option (ℕ × Model J) → Type 0 = Left (λ r. IsTable r.1) in
      after_put-IsTable app object j m _ h (
        option_holds P (obj_id app m.objects) _ _ (λ f. h)
          (λ a ea.
            option_holds P (obj_id object m.objects) _ _ (λ f. h)
              (λ o eo.
                option_holds P (run_check check (etag_of (find_config a o m.configs))) _ _
                  (λ ec. put_row-IsTable out (get_special app) a o j m h) (λ st f. h))))

  delete_row-IsTable :
      (id : ℕ) (m : Model J) → IsTable m → IsTable (record m { configs = delete_row id m.configs })
  delete_row-IsTable id m ((ids, keys), below) = (
    (Distinct-filter same_id _ m.configs ids, Distinct-filter same_key _ m.configs keys),
    All-filter (λ r. ltb r.id m.next_id ≡ true) _ m.configs below,
  )

  delete_found-IsTable :
      (sp : Special) (r : Row J) (m : Model J) → IsTable m → IsTable (delete_found sp r m).1
  delete_found-IsTable no_special r m h = delete_row-IsTable r.id m h
  delete_found-IsTable object_registration r m h = h
  delete_found-IsTable config_schema r m h = delete_row-IsTable r.id m h

  config_delete-IsTable :
      (app object : String) (check : Option Check) (m : Model J)
      → IsTable m
      → IsTable (config_delete app object check m).1
  unfolding config_delete delete_txn
  config_delete-IsTable app object check m h =
      let P : ℕ × Model J → Type 0 =
        λ r. IsTable (if r.0 == 204 then notify app object none r.1 else r.1) in
      let send : (r : ℕ × Model J) → IsTable r.1 → P r = λ r k.
        if_holds IsTable (r.0 == 204) _ _ (λ f. notify_special-IsTable (get_special app) _ k)
          (λ f. k) in
      option_holds P (run_check check (etag_of (row_at app object m))) _ _
        (λ ec.
          option_holds P (row_at app object m) _ _ (λ f. send (404, m) h)
            (λ r f.
              send (delete_found (get_special app) r m)
                (delete_found-IsTable (get_special app) r m h)))
        (λ st f. send (st, m) h)

  patch_txn-IsTable :
      (out : Outside J) (app object : String) (patch : J) (check : Option Check) (m : Model J)
      → IsTable m
      → Left (λ r. IsTable r.2) (patch_txn out app object patch check m)
  unfolding patch_txn
  patch_txn-IsTable out app object patch check m h =
      let P : Option (ℕ × J × Model J) → Type 0 = Left (λ r. IsTable r.2) in
      option_holds P (obj_id app m.objects) _ _ (λ f. h)
        (λ a ea.
          option_holds P (obj_id object m.objects) _ _ (λ f. h)
            (λ o eo.
              let old = find_config a o m.configs in
              let json : J = elim old [ none ↦ out.null_json | some r ↦ r.json ] in
              option_holds P (run_check check (etag_of old)) _ _
                (λ ec.
                  if_holds P (out.is_plain_object json) _ _
                    (λ f.
                      option_holds P
                        (put_row out (get_special app) old a o (out.merge json patch) m) _ _
                        (λ g. tt)
                        (λ r g.
                          subst (Left (λ r. IsTable r.1)) g
                            (put_row-IsTable out (get_special app) a o (out.merge json patch) m h)))
                    (λ f. h))
                (λ st f. h)))

  config_merge_patch-IsTable :
      (out : Outside J) (app object : String) (patch : J) (check : Option Check) (m : Model J)
      → IsTable m
      → IsTable (config_merge_patch out app object patch check m).1
  unfolding config_merge_patch
  config_merge_patch-IsTable out app object patch check m h =
      option_holds (λ (r : Option ℕ × Model J). IsTable r.1)
        (patch_txn out app object patch check m) _ _ (λ f. h)
        (λ (st, j, m') f.
          after_put-IsTable app object j m (some (st, m')) h
            (subst (Left (λ r. IsTable r.2)) f (patch_txn-IsTable out app object patch check m h)))

  serve-IsTable : (r : Request J) (m : Model J) → IsTable m → IsTable (serve r m)
  serve-IsTable (put_config out app object j check) m h =
      config_put-IsTable out app object j check m h
  serve-IsTable (patch_config out app object j check) m h =
      config_merge_patch-IsTable out app object j check m h
  serve-IsTable (delete_config app object check) m h = config_delete-IsTable app object check m h

  -- Whatever is asked, the table keeps its primary key, its unique constraint and its sequence.
  pub serve_all-IsTable :
      (rs : List (Request J)) (m : Model J) → IsTable m → IsTable (serve_all rs m)
  serve_all-IsTable [] m h = h
  serve_all-IsTable (r ∷ rs) m h = serve_all-IsTable rs (serve r m) (serve-IsTable r m h)
