-- ===== src/EdgeAgent/Node/Birth.antt =====
-- The birth of a node whose metrics have names (acs-edge/lib/sparkplugNode.ts, `#publishNBirth`).
use mathlib.Core.List.{map}
use amrc_connectivity_stack.Prelude.{
  ℕ, zero, suc, ◌≡◌, refl, sym, ap, ◌∙◌, subst, true, List, [], ◌∷◌, ◌++◌, append_assoc, Option,
  none, some, length, length-append, All, nat_eq, put, arith,
}
use amrc_connectivity_stack.Text.{Text}
use amrc_connectivity_stack.EdgeAgent.Types.{Metric, Value}
use amrc_connectivity_stack.EdgeAgent.Types.Value.{number, real, bigint, long, str, bool, null}
use amrc_connectivity_stack.EdgeAgent.Buffer.{Language}
use amrc_connectivity_stack.EdgeAgent.Metrics.{Metrics, Clock, nth, modify, set_alias}
use amrc_connectivity_stack.EdgeAgent.Metrics.Building.{nth-length}
use amrc_connectivity_stack.EdgeAgent.Payload.{
  nulled, tidy, plain, give_alias, prepare_named, prepare_metric, new_metric, payload_named,
  prepare_payload,
}
use amrc_connectivity_stack.EdgeAgent.Node.{
  Node, node_birth, dbirth_all, set_aliases, publish_n_birth,
}

modify_same :
    {A : Type 0} (f : A → A) (i : ℕ) (xs : List A) (x : A)
    → nth i xs ≡ some x
    → f x ≡ x
    → modify f i xs ≡ xs
unfolding nth modify
modify_same f i [] x h e = refl
modify_same f zero (y ∷ xs) x h e = ground arith
modify_same f (suc i) (y ∷ xs) x h e = ap (y ∷◌) (modify_same f i xs x h e)

module _ {F : Type 0} where
  abbrev pub HasName : Metric F → Type 0
  HasName m = (n : Text) × (m.name ≡ some n)

  abbrev pub HasAlias : Metric F → Type 0
  HasAlias m = (a : ℕ) × (m.alias ≡ some a)

  name-nulled : (v : Value F) (m : Metric F) → (nulled v m).name ≡ m.name
  name-nulled (number n) m = refl
  name-nulled (real x) m = refl
  name-nulled (bigint n) m = refl
  name-nulled (long n) m = refl
  name-nulled (str []) m = refl
  name-nulled (str (c ∷ s)) m = refl
  name-nulled (bool b) m = refl
  name-nulled null m = refl

  name-tidy : (lang : Language F) (n : Text) (m : Metric F) → (tidy lang n m).name ≡ some (plain n)
  unfolding tidy
  name-tidy lang n m = name-nulled _ _

  give_alias_has :
      (al : Option ℕ) (k : ℕ) (t : Metric F) (n : Text)
      → t.alias ≡ al
      → t.name ≡ some n
      → HasAlias (give_alias al k t).1 × HasName (give_alias al k t).1
  give_alias_has none k t n e d = ((k, refl), (n, d))
  give_alias_has (some a) k t n e d = ((a, e), (n, d))

  prepare_metric_has :
      (lang : Language F) (k : ℕ) (m : Metric F)
      → HasName m
      → HasAlias (prepare_metric lang true k m).1 × HasName (prepare_metric lang true k m).1
  prepare_metric_has lang k m (n, e) =
      subst
        (λ o.
          HasAlias (prepare_named lang true k m o).1 × HasName (prepare_named lang true k m o).1)
        (sym e)
        (give_alias_has (tidy lang n m).alias k (tidy lang n m) (plain n) refl (name-tidy lang n m))

  -- Each metric of a birth has a name and an alias, and the payload has them in order.
  pub prepare_payload_has :
      (lang : Language F) (c : Clock) (ms : List (Metric F)) (k : ℕ)
      → All HasName ms
      → All HasAlias (prepare_payload lang c true k ms).metrics
        × ((prepare_payload lang c true k ms).payload
            ≡ map (new_metric c true) (prepare_payload lang c true k ms).metrics)
  unfolding prepare_payload
  prepare_payload_has lang c [] k h = (tt, refl)
  prepare_payload_has lang c (m ∷ ms) k (hm, h) =
      let (al, (n, e)) = prepare_metric_has lang k m hm in
      let ih = prepare_payload_has lang c ms (prepare_metric lang true k m).0 h in
      let t = (prepare_metric lang true k m).1 in
      let q = subst (λ o. payload_named c true t o ≡ new_metric c true t ∷ []) (sym e) refl in
      (
        (al, ih.0),
        ap (λ l. l ++ (prepare_payload lang c true (prepare_metric lang true k m).0 ms).payload) q
            ∙ (ap ((new_metric c true (prepare_metric lang true k m).1) ∷◌) ih.1),
      )

  set_aliases_step :
      (i a : ℕ) (t : Metric F) (ts : List (Metric F)) (x y : Metrics F)
      → t.alias ≡ some a
      → set_alias i a x ≡ some y
      → set_aliases i (t ∷ ts) x ≡ set_aliases (suc i) ts y
  unfolding set_aliases
  set_aliases_step i a t ts x y d u = rw (d, u) refl

  -- `setAlias` gives the metrics the aliases that they have.
  pub set_aliases_same :
      (c : Clock) (pre suf : List (Metric F)) (x : Metrics F)
      → x.array ≡ pre ++ suf
      → All HasAlias suf
      → (y : Metrics F) × (set_aliases (length pre) (map (new_metric c true) suf) x ≡ some y)
        × (y.array ≡ x.array)
        × (y.indices ≡ x.indices)
  unfolding set_aliases new_metric set_alias
  set_aliases_same c pre [] x e h = (x, refl, refl, refl)
  set_aliases_same c pre (m ∷ suf) x e ((a, d), h) =
      let at : nth (length pre) x.array ≡ some m = rw e (nth-length pre m suf) in
      let f = λ (t : Metric F). record t { alias = some a } in
      let same : modify f (length pre) x.array ≡ x.array =
        modify_same f (length pre) x.array m at (ap (λ o. record m { alias = o }) (sym d)) in
      let y : Metrics F = record x {
        array = modify f (length pre) x.array;
        alias_index = put a (length pre) x.alias_index;
      } in
      let l : length (pre ++ (m ∷ [])) ≡ suc (length pre) =
        omega (arith, length-append pre (m ∷ [])) in
      let (z, p, q, r) =
        set_aliases_same c (pre ++ (m ∷ [])) suf y (same ∙ e ∙ sym (append_assoc pre (m ∷ []) suf))
          h in
      let u : set_alias (length pre) a x ≡ some y = rw (set_alias, at) refl in
      let v : set_aliases (length pre) (map (new_metric c true) (m ∷ suf)) x
          ≡ set_aliases (suc (length pre)) (map (new_metric c true) suf) y =
        set_aliases_step (length pre) a (new_metric c true m) (map (new_metric c true) suf) x y d
          u in
      (z, v ∙ subst (λ j. set_aliases j (map (new_metric c true) suf) y ≡ some z) l p, q ∙ same, r)

module _ {F : Type 0} (lang : Language F) (c : Clock) where
  -- The birth of a node whose metrics have names is published, and the events that follow it are
  -- emitted. The payload has each metric of the node, in order, with the alias that the node keeps; the
  -- connection stays as it is.
  pub publish_n_birth-sent :
      (s : Node F)
      → All HasName s.metrics.array
      → (t : Node F) × (publish_n_birth lang c s
          ≡ some (t, node_birth (map (new_metric c true) t.metrics.array) ∷ dbirth_all ∷ []))
        × (t.metrics.array ≡ (prepare_payload lang c true 0 s.metrics.array).metrics)
        × (t.alias_counter ≡ (prepare_payload lang c true 0 s.metrics.array).counter)
        × (t.is_online ≡ s.is_online)
        × All HasAlias t.metrics.array
  unfolding publish_n_birth
  publish_n_birth-sent s h =
      let ms = (prepare_payload lang c true 0 s.metrics.array).metrics in
      let p = prepare_payload_has lang c s.metrics.array 0 h in
      let x : Metrics F = record (s.metrics) { array = ms } in
      let (y, e, a, i) = set_aliases_same c [] ms x refl p.0 in
      let e' = ap (λ l. set_aliases 0 l x) p.1 ∙ e in
      let t : Node F = record s {
        metrics = y;
        alias_counter = (prepare_payload lang c true 0 s.metrics.array).counter;
      } in
      (
        t,
        rw (publish_n_birth, e', a) (ap (λ l. some (t, node_birth l ∷ dbirth_all ∷ [])) p.1),
        a,
        refl,
        refl,
        subst (All HasAlias) (sym a) p.0,
      )
