-- ===== src/ConfigDb/Configs/Writes.antt =====
-- What `config_put` and `config_delete` do to the table, and what is sent.
use amrc_connectivity_stack.Prelude.{
  ℕ, ◌≡◌, ◌≢◌, ◌⊎◌, refl, ◌∙◌, sym, ap, subst, true, List, [], ◌∷◌, ◌++◌, none, some, arith,
  if◌then◌else◌, ltb, ◌==◌, nat_eq, string_eq, StrictEq, ==_iff, Distinct, Option-cases, inl, inr,
  if_holds, option_holds, Left, lookup,
}
use amrc_connectivity_stack.ConfigDb.Configs.{
  Row, Model, Outside, Special, no_special, object_registration, config_schema, find_config,
  stored_schema, find_schema, special_validate, meets, capped, config_validate, all_satisfy,
}
use amrc_connectivity_stack.ConfigDb.Configs.Transactions.{set_json, write_config, put_row}
use amrc_connectivity_stack.ConfigDb.Configs.Table.{
  is_key, json_of, json_at, same_id, same_key, find_config-append, json_at-set_json,
}

module _ {J : Type 0} where
  -- Only the cache of schemas may differ.
  abbrev pub IsSame : Model J → Model J → Type 0
  IsSame m m' =
      (m'.configs ≡ m.configs)
      × (m'.updates ≡ m.updates)
      × (m'.next_id ≡ m.next_id)
      × (m'.objects ≡ m.objects)

  abbrev same : (m : Model J) → IsSame m m
  same m = (refl, refl, refl, refl)

  find_schema-IsSame :
      (out : Outside J) (app : ℕ) (m : Model J) → Left (λ r. IsSame m r.1) (find_schema out app m)
  unfolding find_schema
  find_schema-IsSame out app m =
      option_holds (Left (λ r. IsSame m r.1)) (lookup app m.schemas) _ _
        (λ e.
          option_holds (Left (λ r. IsSame m r.1)) (stored_schema out app m.configs) _ _
            (λ f. same m)
            (λ j f.
              if_holds (Left (λ r. IsSame m r.1)) (out.compiles j) _ _ (λ g. same m) (λ g. tt)))
        (λ s e. same m)

  special_validate-IsSame :
      (out : Outside J) (sp : Special) (object : ℕ) (j : J) (m : Model J)
      → IsSame m (special_validate out sp object j m).1
  unfolding special_validate
  special_validate-IsSame out no_special object j m = same m
  special_validate-IsSame out object_registration object j m = same m
  special_validate-IsSame out config_schema object j m =
      if_holds (λ (r : ℕ × Model J). IsSame m r.1) (out.compiles j) _ _
        (λ f.
          if_holds (λ (r : ℕ × Model J). IsSame m r.1) (all_satisfy out j object m.configs) _ _
            (λ g. same m) (λ g. same m))
        (λ f. same m)

  IsSame-trans : (m m' m'' : Model J) → IsSame m m' → IsSame m' m'' → IsSame m m''
  IsSame-trans m m' m'' (a, b, c, d) (a', b', c', d') = (a' ∙ a, b' ∙ b, c' ∙ c, d' ∙ d)

  -- Validation answers 204 or a status of 300 and more.
  abbrev pub Validated : Model J → ℕ × Model J → Type 0
  Validated m (st, m') = IsSame m m' × ((st ≡ 204) ⊎ (ltb 299 st ≡ true))

  capped-Validated : (m : Model J) (r : ℕ × Model J) → IsSame m r.1 → Validated m (capped r)
  capped-Validated m (st, m') h = (h, ground arith)

  pub config_validate-Validated :
      (out : Outside J) (sp : Special) (app object : ℕ) (j : J) (m : Model J)
      → Left (Validated m) (config_validate out sp app object j m)
  unfolding config_validate
  config_validate-Validated out sp app object j m =
      option_holds (Left (Validated m)) (find_schema out app m) _ _ (λ e. tt)
        (λ (s, m') e.
          let first = subst (Left (λ r. IsSame m r.1)) e (find_schema-IsSame out app m) in
          if_holds (Left (Validated m)) (meets out s j) _ _
            (λ f. capped-Validated m (special_validate out sp object j m') (
              IsSame-trans m m' (special_validate out sp object j m').1 first
                (special_validate-IsSame out sp object j m')))
            (λ f. (first, inr refl)))

module _ {J : Type 0} ⦃e : StrictEq J⦄ where
  -- The keys of the table: its ids and its pairs of app and object.
  abbrev pub IsKeyed : List (Row J) → Type 0
  IsKeyed rows = Distinct same_id rows × Distinct same_key rows

  module _ (a o : ℕ) (j : J) (m : Model J) where
    -- The key has the config and no other key has changed.
    abbrev pub Sets : Model J → Type 0
    Sets m' =
        (b p : ℕ)
        → json_at b p m'.configs ≡ (if is_key a o b p then some j else json_at b p m.configs)

    -- Nothing is written, with an error or for a config that is there already; or the config is new
    -- for its key, and is there now.
    abbrev pub Written : ℕ × Model J → Type 0
    Written (st, m') =
        (IsSame m m' × ((ltb 299 st ≡ true) ⊎ ((st ≡ 299) × (json_at a o m.configs ≡ some j))))
        ⊎ (((st ≡ 201) ⊎ (st ≡ 204))
            × (json_at a o m.configs ≢ some j)
            × Sets m'
            × (m'.updates ≡ m.updates))

    write_new-Written :
        (out : Outside J) (m' : Model J)
        → IsSame m m'
        → find_config a o m.configs ≡ none
        → Written (write_config out none a o j m')
    unfolding write_config
    write_new-Written out m' (c, u, n, x) absent =
        let row : Row J = record {
          id = m'.next_id;
          app = a;
          object = o;
          json = j;
          etag = out.new_etag;
        } in
        inr (
          inl refl,
          (λ z. cc),
          (λ b p.
              ap (λ rows. json_at b p (rows ++ row ∷ [])) c
              ∙ find_config-append a o b p m.configs row absent
                  (ground (arith, ==_iff a a, ==_iff o o))),
          u,
        )

    write_old-Written :
        (out : Outside J) (m' : Model J) (r : Row J)
        → IsSame m m'
        → IsKeyed m.configs
        → find_config a o m.configs ≡ some r
        → Written (write_config out (some r) a o j m')
    unfolding write_config
    write_old-Written out m' r (c, u, n, x) (ids, keys) found =
        if_holds Written (r.json == j) _ _
          (λ f. inl ((c, u, n, x), inr (refl, ap json_of found ∙ ap some ((==_iff r.json j).0 f))))
          (λ f. inr (
            inr refl,
            (λ z. ground (arith, f, ==_iff r.json j, ap json_of found, z)),
            (λ b p.
                ap (λ rows. json_at b p (set_json r.id j out.new_etag rows)) c
                ∙ json_at-set_json a o b p j out.new_etag m.configs r ids found),
            u,
          ))

    write_config-Written :
        (out : Outside J) (m' : Model J)
        → IsSame m m'
        → IsKeyed m.configs
        → Written (write_config out (find_config a o m.configs) a o j m')
    write_config-Written out m' h keyed = elim (Option-cases (find_config a o m.configs)) [
      | inl absent ↦
          subst (λ old. Written (write_config out old a o j m')) (sym absent)
            (write_new-Written out m' h absent)
      | inr (r, found) ↦
          subst (λ old. Written (write_config out old a o j m')) (sym found)
            (write_old-Written out m' r h keyed found)
    ]

    pub put_row-Written :
        (out : Outside J) (sp : Special)
        → IsKeyed m.configs
        → Left Written (put_row out sp (find_config a o m.configs) a o j m)
    unfolding put_row
    put_row-Written out sp keyed =
        option_holds (Left Written) (config_validate out sp a o j m) _ _ (λ f. tt)
          (λ (st, m') f.
            let (same', ok) =
              subst (Left (Validated m)) f (config_validate-Validated out sp a o j m) in
            if_holds (Left Written) (ltb 299 st) _ _ (λ g. inl (same', inl g))
              (λ g. write_config-Written out m' same' keyed))
