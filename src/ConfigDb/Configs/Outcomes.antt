-- ===== src/ConfigDb/Configs/Outcomes.antt =====
-- What `config_put` comes to, the transaction and what is sent after it.
use amrc_connectivity_stack.Prelude.{
  ℕ, ◌≡◌, ◌≢◌, ◌⊎◌, refl, ◌∙◌, sym, ap, subst, String, true, false, ◌∷◌, Option, none, some, arith,
  if◌then◌else◌, ltb, ◌==◌, nat_eq, string_eq, StrictEq, Option-cases, inl, inr, option_holds, Left,
}
use mathlib.Core.Path.{ap₂}
use amrc_connectivity_stack.Text.{Text}
use amrc_connectivity_stack.ConfigDb.Configs.{
  change, config, class_update, Model, Outside, Check, run_check, Special, no_special,
  object_registration, config_schema, get_special, obj_id, find_config,
}
use amrc_connectivity_stack.ConfigDb.Configs.Transactions.{
  put_row, etag_of, put_txn, notify, notify_special, after_put, config_put,
}
use amrc_connectivity_stack.ConfigDb.Configs.Table.{json_at}
use amrc_connectivity_stack.ConfigDb.Configs.Writes.{IsKeyed, Sets, Written, put_row-Written}

-- A check refuses with a status of 300 or more.
abbrev pub Refuses : Option Check → Type 0
Refuses check = (t : Option Text) (st : ℕ) → run_check check t ≡ some st → ltb 299 st ≡ true

module _ {J : Type 0} ⦃e : StrictEq J⦄ where
  pub notify_special-updates :
      (sp : Special) (m m' : Model J)
      → m'.updates ≡ m.updates
      → (notify_special sp m').updates ≡ (notify_special sp m).updates
  notify_special-updates no_special m m' h = h
  notify_special-updates object_registration m m' h = ap (class_update ∷◌) h
  notify_special-updates config_schema m m' h = h

  pub notify_special-configs :
      (sp : Special) (m : Model J) → (notify_special sp m).configs ≡ m.configs
  notify_special-configs no_special m = refl
  notify_special-configs object_registration m = refl
  notify_special-configs config_schema m = refl

  module _ (app object : String) (j : J) (check : Option Check) (m : Model J) where
    -- The config is there already.
    abbrev pub IsThere : Type 0
    IsThere =
        (a : ℕ) × (o : ℕ) × (obj_id app m.objects ≡ some a)
        × (obj_id object m.objects ≡ some o)
        × (json_at a o m.configs ≡ some j)

    -- No config and no update: with an exception, an error, or a config that is there already.
    abbrev pub Keeps : Option ℕ × Model J → Type 0
    Keeps (r, m') =
        (m'.configs ≡ m.configs)
        × (m'.updates ≡ m.updates)
        × ((r ≡ none)
            ⊎ (((st : ℕ) × (r ≡ some st) × (ltb 299 st ≡ true)) ⊎ ((r ≡ some 204) × IsThere)))

    -- The etag that was there passed the check, the config of the key is new, no other has changed,
    -- and the updates are sent.
    abbrev pub Changes : Option ℕ × Model J → Type 0
    Changes (r, m') =
        (a : ℕ) × (o : ℕ) × (obj_id app m.objects ≡ some a)
        × (obj_id object m.objects ≡ some o)
        × (run_check check (etag_of (find_config a o m.configs)) ≡ none)
        × ((r ≡ some 201) ⊎ (r ≡ some 204))
        × (json_at a o m.configs ≢ some j)
        × Sets a o j m m'
        × (m'.updates ≡ (notify app object (some j) m).updates)

    abbrev pub Outcome : Option ℕ × Model J → Type 0
    Outcome r = Keeps r ⊎ Changes r

    after_put-error :
        (st : ℕ) (m' : Model J)
        → ltb 299 st ≡ true
        → after_put app object j m (some (st, m')) ≡ (some st, m')
    after_put-error st m' h =
        let p : (st == 299) ≡ false = ground arith in
        let q : ltb st 299 ≡ false = ground arith in
        ap₂ (λ b c. (some (if b then 204 else st), if c then notify app object (some j) m' else m'))
          p q

    refused-Outcome :
        (st : ℕ) → ltb 299 st ≡ true → Outcome (after_put app object j m (some (st, m)))
    refused-Outcome st h =
        subst Outcome (sym (after_put-error st m h)) (inl (refl, refl, inr (inl (st, refl, h))))

    sent :
        (a o : ℕ) (st : ℕ) (m' : Model J)
        → obj_id app m.objects ≡ some a
        → obj_id object m.objects ≡ some o
        → run_check check (etag_of (find_config a o m.configs)) ≡ none
        → (some st ≡ some 201) ⊎ (some st ≡ some 204)
        → json_at a o m.configs ≢ some j
        → Sets a o j m m'
        → m'.updates ≡ m.updates
        → Changes (some st, notify app object (some j) m')
    sent a o st m' ea eo ec s new sets u =
        let add : Model J → Model J =
          λ n. record n { updates = config app object (some j) ∷ change app ∷ n.updates } in
        (
          a,
          o,
          ea,
          eo,
          ec,
          s,
          new,
          (λ b p. ap (json_at b p) (notify_special-configs (get_special app) (add m')) ∙ sets b p),
          notify_special-updates (get_special app) (add m) (add m')
              (ap (λ us. config app object (some j) ∷ change app ∷ us) u),
        )

    written-Outcome :
        (a o : ℕ) (r : ℕ × Model J)
        → obj_id app m.objects ≡ some a
        → obj_id object m.objects ≡ some o
        → run_check check (etag_of (find_config a o m.configs)) ≡ none
        → Written a o j m r
        → Outcome (after_put app object j m (some r))
    written-Outcome a o (st, m') ea eo ec (inl ((c, u, n, x), inl h)) =
        subst Outcome (sym (after_put-error st m' h)) (inl (c, u, inr (inl (st, refl, h))))
    written-Outcome a o (st, m') ea eo ec (inl ((c, u, n, x), inr (h, there))) =
        subst (λ k. Outcome (after_put app object j m (some (k, m')))) (sym h)
          (inl (c, u, inr (inr (refl, (a, o, ea, eo, there)))))
    written-Outcome a o (st, m') ea eo ec (inr (inl s, new, sets, u)) =
        subst (λ k. Outcome (after_put app object j m (some (k, m')))) (sym s)
          (inr (sent a o 201 m' ea eo ec (inl refl) new sets u))
    written-Outcome a o (st, m') ea eo ec (inr (inr s, new, sets, u)) =
        subst (λ k. Outcome (after_put app object j m (some (k, m')))) (sym s)
          (inr (sent a o 204 m' ea eo ec (inr refl) new sets u))

    -- `config_put` either keeps every config and sends nothing, with an exception, an error status or
    -- a config that is there already; or the etag that was there passed the check, the config is new
    -- for its key and is there now, no other config has changed, and the updates are sent.
    pub config_put-Outcome :
        (out : Outside J)
        → IsKeyed m.configs
        → Refuses check
        → Outcome (config_put out app object j check m)
    unfolding config_put put_txn
    config_put-Outcome out keyed refuses =
        let P : Option (ℕ × Model J) → Type 0 = λ r. Outcome (after_put app object j m r) in
        option_holds P (obj_id app m.objects) _ _ (λ f. refused-Outcome 404 refl)
          (λ a ea.
            option_holds P (obj_id object m.objects) _ _ (λ f. refused-Outcome 404 refl)
              (λ o eo.
                let old = find_config a o m.configs in
                option_holds P (run_check check (etag_of old)) _ _
                  (λ ec. elim (Option-cases (put_row out (get_special app) old a o j m)) [
                    | inl f ↦ subst P (sym f) (inl (refl, refl, inl refl))
                    | inr (r, f) ↦ subst P (sym f) (
                        written-Outcome a o r ea eo ec (
                          subst (Left (Written a o j m)) f
                            (put_row-Written a o j m out (get_special app) keyed)))
                  ])
                  (λ st f. refused-Outcome st (refuses _ st f))))
