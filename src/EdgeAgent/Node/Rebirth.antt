-- ===== src/EdgeAgent/Node/Rebirth.antt =====
-- The births of devices after a second birth of the node (acs-edge/lib/sparkplugNode.ts).
use amrc_connectivity_stack.Prelude.{
  ℕ, ◌≡◌, refl, sym, ap, ◌∙◌, subst, true, List, [], ◌∷◌, ◌++◌, Option, none, some, All, In, arith,
}
use amrc_connectivity_stack.Text.{Text}
use amrc_connectivity_stack.EdgeAgent.Types.{Metric}
use amrc_connectivity_stack.EdgeAgent.Buffer.{Language}
use amrc_connectivity_stack.EdgeAgent.Metrics.{Clock}
use amrc_connectivity_stack.EdgeAgent.Payload.{
  tidy, give_alias, prepare_named, prepare_metric, prepare_payload,
}
use amrc_connectivity_stack.EdgeAgent.Payload.Aliases.{aliases, alias_list, alias-tidy}
use amrc_connectivity_stack.EdgeAgent.Node.{Node, Sent, publish_n_birth, publish_d_birth}
use amrc_connectivity_stack.EdgeAgent.Node.Birth.{HasName, HasAlias, publish_n_birth-sent}

module _ {F : Type 0} (lang : Language F) (c : Clock) where
  prepare_metric_again :
      (k : ℕ) (m : Metric F)
      → HasAlias m
      → ((prepare_metric lang true k m).0 ≡ k) × ((prepare_metric lang true k m).1.alias ≡ m.alias)
  prepare_metric_again k m (a, e) = again m.name
    where
      given :
          (al : Option ℕ) (t : Metric F)
          → al ≡ some a
          → ((give_alias al k t).0 ≡ k) × ((give_alias al k t).1.alias ≡ t.alias)
      given none t d = cc
      given (some b) t d = (refl, refl)

      again :
          (o : Option Text)
          → ((prepare_named lang true k m o).0 ≡ k)
            × ((prepare_named lang true k m o).1.alias ≡ m.alias)
      again none = (refl, refl)
      again (some n) =
          let g = given (tidy lang n m).alias (tidy lang n m) (alias-tidy lang n m ∙ e) in
          (g.0, g.1 ∙ alias-tidy lang n m)

  prepare_payload_again :
      (ms : List (Metric F)) (k : ℕ)
      → All HasAlias ms
      → ((prepare_payload lang c true k ms).counter ≡ k)
        × (aliases (prepare_payload lang c true k ms).metrics ≡ aliases ms)
  unfolding prepare_payload
  prepare_payload_again [] k h = (refl, refl)
  prepare_payload_again (m ∷ ms) k (hm, h) =
      let (e, a) = prepare_metric_again k m hm in
      let j = (prepare_metric lang true k m).0 in
      let (f, b) = prepare_payload_again ms j h in
      (
        f ∙ e,
        ap (λ o. alias_list o ++ aliases (prepare_payload lang c true j ms).metrics) a
            ∙ ap (alias_list m.alias ++◌) b,
      )

  fresh :
      (k : ℕ) (m : Metric F) (n : Text)
      → m.name ≡ some n
      → m.alias ≡ none
      → (prepare_metric lang true k m).1.alias ≡ some k
  fresh k m n d a =
      ap (λ o. (prepare_named lang true k m o).1.alias) d
      ∙ ap (λ o. (give_alias o k (tidy lang n m)).1.alias) (alias-tidy lang n m ∙ a)

  -- When a node whose metrics have names and aliases is born again, the next new alias that a device
  -- gets is 0, also where a metric of the node has it.
  pub publish_d_birth-publish_n_birth :
      (s t : Node F) (out : List (Sent F)) (id : Text) (m : Metric F) (ms : List (Metric F))
      → All HasName s.metrics.array
      → All HasAlias s.metrics.array
      → s.is_online ≡ true
      → In 0 (aliases s.metrics.array)
      → publish_n_birth lang c s ≡ some (t, out)
      → HasName m
      → m.alias ≡ none
      → In 0 (aliases t.metrics.array)
        × (rs : List (Metric F)) × (aliases (publish_d_birth lang c id (m ∷ ms) t).1
            ≡ 0 ∷ aliases rs)
  unfolding publish_d_birth prepare_payload
  publish_d_birth-publish_n_birth s t out id m ms h l o z e (n, d) a =
      let (t', e', b, k, o', l') = publish_n_birth-sent lang c s h in
      let same : t' ≡ t = ground (arith, e, e') in
      let again = prepare_payload_again s.metrics.array 0 l in
      let count : t.alias_counter ≡ 0 =
        ap (λ (s : Node F). s.alias_counter) (sym same) ∙ k ∙ again.0 in
      let on : t.is_online ≡ true = ap (λ (s : Node F). s.is_online) (sym same) ∙ o' ∙ o in
      let kept : aliases s.metrics.array ≡ aliases t.metrics.array =
        sym again.1 ∙ ap aliases (sym b) ∙ ap (λ (s : Node F). aliases s.metrics.array) same in
      let rs =
        λ (j : ℕ). (prepare_payload lang c true (prepare_metric lang true j m).0 ms).metrics in
      let born : (publish_d_birth lang c id (m ∷ ms) t).1
          ≡ (prepare_payload lang c true t.alias_counter (m ∷ ms)).metrics =
        rw (publish_d_birth, on) refl in
      let first : (prepare_metric lang true t.alias_counter m).1.alias ≡ some 0 =
        fresh t.alias_counter m n d a ∙ ap some count in
      (
        subst (λ l. In 0 l) kept z,
        rs t.alias_counter,
        ap aliases born ∙ ap (λ o. alias_list o ++ aliases (rs t.alias_counter)) first,
      )
