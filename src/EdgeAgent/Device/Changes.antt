-- ===== src/EdgeAgent/Device/Changes.antt =====
-- Data that change nothing, and data that come twice (acs-edge/lib/device.ts, `_handleData`).
use amrc_connectivity_stack.Prelude.{
  ℕ, ◌≡◌, refl, sym, ap, ◌∙◌, subst, inl, inr, Bool, true, false, not, ◌&&◌, List, [], ◌∷◌, ◌++◌,
  Option, none, some, if◌then◌else◌, Left, Bool-cases, Option-cases, option_holds, if_holds, arith,
  nat_eq, list_eq,
}
use amrc_connectivity_stack.Text.{Text}
use amrc_connectivity_stack.EdgeAgent.Types.{Metric, Value}
use amrc_connectivity_stack.EdgeAgent.Buffer.{Language}
use amrc_connectivity_stack.EdgeAgent.Metrics.{
  Metrics, Clock, updated, get_by_addr_path, get_paths_for_addr, set_value_by_addr_path, given,
}
use amrc_connectivity_stack.EdgeAgent.Metrics.Finding.{get_by_addr_path-set_value_by_addr_path}
use amrc_connectivity_stack.EdgeAgent.Device.Readings.{
  Reader, Changed, to_long, same_value, is_sensible, is_sensible_strictly, tagged, unchanged,
  set_changed, handle_value, batch_value, value_at, read_value, is_read, handle_batch, handle_path,
  handle_paths, handle_addrs,
}

append-nil_parts : {A : Type 0} (xs ys : List A) → xs ++ ys ≡ [] → (xs ≡ []) × (ys ≡ [])
append-nil_parts [] ys h = (refl, h)
append-nil_parts (x ∷ xs) ys h = cc

module _ {F P : Type 0} (lang : Language F) (same_real : F → F → Bool) (reader : Reader F P)
    (c : Clock) where
  -- Nothing changes silently.
  record Silent (x : Metrics F) (r : Changed F) : Type 0 where
    silent : r.copies ≡ [] → r.metrics ≡ x

  stays_Silent : (x : Metrics F) → Silent x (unchanged lang same_real reader c x)
  stays_Silent x = record { silent = λ _. refl }

  set_changed-Silent :
      (a p : Text) (v : Value F) (t tns : Option ℕ) (run : Option (Option Text)) (x : Metrics F)
      → Silent x (set_changed lang same_real reader c a p v t tns run x)
  unfolding set_changed
  set_changed-Silent a p v t tns run x =
      option_holds (Silent x) (set_value_by_addr_path c a p v t tns x) _ _ (λ _. stays_Silent x)
        (λ y e. record {
          silent = λ h.
              let (i, m, n, g, k, o) =
                get_by_addr_path-set_value_by_addr_path c a p v t tns x y e in
              let f : tagged run (updated c v t tns m) ∷ [] ≡ [] =
                sym (
                  ap
                    (λ o. elim o as (λ _. List (Metric F)) [
                      | none ↦ []
                      | some m ↦ tagged run m ∷ []
                    ])
                    k)
                ∙ h in
              cc;
        })

  handle_value-Silent :
      (a p : Text) (msg : P) (v : Option (Value F)) (m : Metric F) (x : Metrics F)
      → Silent x (handle_value lang same_real reader c a p msg v m x)
  unfolding handle_value
  handle_value-Silent a p msg none m x = stays_Silent x
  handle_value-Silent a p msg (some v) m x =
      if_holds (Silent x) (is_sensible lang v && not (same_value same_real m.value v)) _ _
        (λ _. set_changed-Silent a p v (reader.time msg) (reader.time_ns msg) (reader.tags msg) x)
        (λ _. stays_Silent x)

  -- One change after another.
  then_Silent :
      (x y : Metrics F) (xs : List (Metric F)) (r : Changed F)
      → Silent x (record { metrics = y; copies = xs })
      → Silent y r
      → Silent x (record r { copies = xs ++ r.copies })
  then_Silent x y xs r f g = record {
    silent = λ h. let (e, d) = append-nil_parts xs r.copies h in g.silent d ∙ f.silent e;
  }

  batch_value-Silent :
      (a p : Text) (w : Value F) (t : Option ℕ) (x : Metrics F)
      → Silent x (batch_value lang same_real reader c a p w t x)
  unfolding batch_value
  batch_value-Silent a p w t x =
      if_holds (Silent x)
        (is_sensible_strictly lang (to_long w)
          && not (same_value same_real (value_at a p x) (to_long w)))
        _ _ (λ _. set_changed-Silent a p (to_long w) (if given t then t else some c.ms) none none x)
        (λ _. stays_Silent x)

  handle_batch-Silent :
      (a p : Text) (vs : List (Option (Value F) × Option ℕ)) (x : Metrics F)
      → Silent x (handle_batch lang same_real reader c a p vs x)
  unfolding handle_batch
  handle_batch-Silent a p [] x = stays_Silent x
  handle_batch-Silent a p ((none, t) ∷ vs) x = handle_batch-Silent a p vs x
  handle_batch-Silent a p ((some w, t) ∷ vs) x =
      let r = batch_value lang same_real reader c a p w t x in
      then_Silent x r.metrics r.copies (handle_batch lang same_real reader c a p vs r.metrics)
        (batch_value-Silent a p w t x) (handle_batch-Silent a p vs r.metrics)

  handle_path-Silent :
      (b single : Bool) (a : Text) (msg : P) (p : Text) (x : Metrics F)
      → Silent x (handle_path lang same_real reader c b single a msg p x)
  unfolding handle_path
  handle_path-Silent b single a msg p x =
      option_holds (Silent x) (get_by_addr_path a p x) _ _ (λ _. stays_Silent x)
        (λ m _.
          if_holds (Silent x) (is_read b single m) _ _
            (λ _.
              if_holds (Silent x) (b && reader.is_batched) _ _
                (λ _. handle_batch-Silent a p (reader.batch msg m) x)
                (λ _. handle_value-Silent a p msg (read_value lang same_real reader c b msg m) m x))
            (λ _. stays_Silent x))

  handle_paths-Silent :
      (b single : Bool) (a : Text) (msg : P) (ps : List Text) (x : Metrics F)
      → Silent x (handle_paths lang same_real reader c b single a msg ps x)
  unfolding handle_paths
  handle_paths-Silent b single a msg [] x = stays_Silent x
  handle_paths-Silent b single a msg (p ∷ ps) x =
      let r = handle_path lang same_real reader c b single a msg p x in
      then_Silent x r.metrics r.copies
        (handle_paths lang same_real reader c b single a msg ps r.metrics)
        (handle_path-Silent b single a msg p x) (handle_paths-Silent b single a msg ps r.metrics)

  handle_addrs-Silent :
      (b single : Bool) (obj : List (Text × P)) (x : Metrics F)
      → Silent x (handle_addrs lang same_real reader c b single obj x)
  unfolding handle_addrs
  handle_addrs-Silent b single [] x = stays_Silent x
  handle_addrs-Silent b single ((a, msg) ∷ obj) x =
      let r = handle_paths lang same_real reader c b single a msg (get_paths_for_addr a x) x in
      then_Silent x r.metrics r.copies (handle_addrs lang same_real reader c b single obj r.metrics)
        (handle_paths-Silent b single a msg (get_paths_for_addr a x) x)
        (handle_addrs-Silent b single obj r.metrics)

  -- Where the data of a connection give no changed metric to publish, the metrics of the device are as
  -- they were.
  copies-handle_addrs :
      (b single : Bool) (obj : List (Text × P)) (x : Metrics F)
      → (handle_addrs lang same_real reader c b single obj x).copies ≡ []
      → (handle_addrs lang same_real reader c b single obj x).metrics ≡ x
  copies-handle_addrs b single obj x h = (handle_addrs-Silent b single obj x).silent h

  -- What holds at the value of a metric: a second time, it changes nothing.
  abbrev Settled : Text → Text → P → Value F → Changed F → Type 0
  Settled a p msg v r =
      (n : Metric F)
      → get_by_addr_path a p r.metrics ≡ some n
      → handle_value lang same_real reader c a p msg (some v) n r.metrics
        ≡ unchanged lang same_real reader c r.metrics

  -- Nothing is done to a metric that has the value.
  same_settles :
      (a p : Text) (msg : P) (v : Value F) (m : Metric F) (x : Metrics F)
      → (is_sensible lang v && not (same_value same_real m.value v)) ≡ false
      → handle_value lang same_real reader c a p msg (some v) m x
        ≡ unchanged lang same_real reader c x
  unfolding handle_value
  same_settles a p msg v m x e = rw (handle_value, e) refl

  -- A value that is identical to itself, when it comes a second time for the metric at an address and a
  -- path, changes nothing and is not published again.
  pub handle_value-handle_value :
      (a p : Text) (msg : P) (v : Value F) (m n : Metric F) (x : Metrics F)
      → same_value same_real v v ≡ true
      → get_by_addr_path a p x ≡ some m
      → get_by_addr_path a p (handle_value lang same_real reader c a p msg (some v) m x).metrics
        ≡ some n
      → handle_value lang same_real reader c a p msg
          (some v)
          n
          (handle_value lang same_real reader c a p msg (some v) m x).metrics
        ≡ unchanged lang same_real reader c
            (handle_value lang same_real reader c a p msg (some v) m x).metrics
  unfolding handle_value set_changed updated
  handle_value-handle_value a p msg v m n x s g h = settled n h
    where
      t : Option ℕ
      t = reader.time msg

      tns : Option ℕ
      tns = reader.time_ns msg

      ends :
          (b : Bool)
          → same_value same_real v v ≡ true
          → (b && not (same_value same_real v v)) ≡ false
      ends true e = rw e refl
      ends false e = refl

      settled : Settled a p msg v (handle_value lang same_real reader c a p msg (some v) m x)
      settled = elim (Bool-cases (is_sensible lang v && not (same_value same_real m.value v))) [
        | inr e ↦ subst (Settled a p msg v) (sym (same_settles a p msg v m x e)) (λ k i.
            same_settles a p msg v k x (
              subst
                (λ (o : Option (Metric F)).
                  Left (λ k. (is_sensible lang v && not (same_value same_real k.value v)) ≡ false)
                    o)
                (sym g ∙ i) e))
        | inl e ↦ elim (Option-cases (set_value_by_addr_path c a p v t tns x)) [
          | inl d ↦
              let q : handle_value lang same_real reader c a p msg (some v) m x
                  ≡ unchanged lang same_real reader c x =
                rw (handle_value, e, set_changed, d) refl in
              subst (Settled a p msg v) (sym q) (λ k i.
                let km : m ≡ k = ground (arith, g, i) in
                subst
                  (λ k.
                    handle_value lang same_real reader c a p msg (some v) k x
                    ≡ unchanged lang same_real reader c x)
                  km q)
          | inr (y, d) ↦
              let (j, o, f, u, w, z) =
                get_by_addr_path-set_value_by_addr_path c a p v t tns x y d in
              let r : Changed F = record {
                metrics = y;
                copies = elim (get_by_addr_path a p y) [
                  | none ↦ []
                  | some k ↦ tagged (reader.tags msg) k ∷ []
                ];
              } in
              let q : handle_value lang same_real reader c a p msg (some v) m x ≡ r =
                rw (handle_value, e, set_changed, d) refl in
              subst (Settled a p msg v) (sym q) (λ k i.
                let ku : updated c v t tns o ≡ k = ground (arith, w, i) in
                same_settles a p msg v k y (
                  subst
                    (λ (k : Metric F).
                      (is_sensible lang v && not (same_value same_real k.value v)) ≡ false)
                    ku (ends (is_sensible lang v) s)))
        ]
      ]
