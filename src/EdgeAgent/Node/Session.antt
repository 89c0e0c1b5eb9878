-- ===== src/EdgeAgent/Node/Session.antt =====
-- The aliases of a node and its devices between two births of the node
-- (acs-edge/lib/sparkplugNode.ts).
use amrc_connectivity_stack.Prelude.{
  ℕ, ◌≡◌, refl, sym, ap, ◌∙◌, subst, true, List, [], ◌∷◌, ◌++◌, append_assoc, some, if_holds,
  flat_map, All, arith,
}
use amrc_connectivity_stack.Text.{Text}
use amrc_connectivity_stack.EdgeAgent.Types.{Metric}
use amrc_connectivity_stack.EdgeAgent.Buffer.{Language}
use amrc_connectivity_stack.EdgeAgent.Metrics.{Metrics, Clock}
use amrc_connectivity_stack.EdgeAgent.Payload.{prepare_payload}
use amrc_connectivity_stack.EdgeAgent.Payload.Aliases.{Unique, Good, aliases, prepare_payload-Good}
use amrc_connectivity_stack.EdgeAgent.Node.Birth.{HasName, publish_n_birth-sent}
use amrc_connectivity_stack.EdgeAgent.Node.{
  Node, Sent, publish_d_birth, publish_n_birth, on_offline, on_close, stop,
}

-- A node, and the metrics of each of its devices.
pub record World (F : Type 0) : Type 0 where
  pub node : Node F
  pub devices : List (List (Metric F))

module _ {F : Type 0} where
  -- The aliases in use.
  abbrev pub in_use : World F → List ℕ
  in_use w = aliases w.node.metrics.array ++ flat_map aliases w.devices

  -- A birth of one device, a loss of the connection, or the end. A new connection is no such step,
  -- since it comes with a birth of the node.
  pub data Step (lang : Language F) : World F → World F → Type 0 where
    device_born :
        (c : Clock) (id : Text) (xs ys : List (List (Metric F))) (ms : List (Metric F))
        (w v : World F)
        → w.devices ≡ xs ++ (ms ∷ ys)
        → v.node ≡ (publish_d_birth lang c id ms w.node).0
        → v.devices ≡ xs ++ ((publish_d_birth lang c id ms w.node).1 ∷ ys)
        → Step lang w v
    went_offline :
        (w v : World F) → v.devices ≡ w.devices → v.node ≡ on_offline w.node → Step lang w v
    closed : (w v : World F) → v.devices ≡ w.devices → v.node ≡ on_close w.node → Step lang w v
    stopped : (w v : World F) → v.devices ≡ w.devices → v.node ≡ stop w.node → Step lang w v

  flat_map-middle :
      (xs ys : List (List (Metric F))) (ms : List (Metric F))
      → flat_map aliases (xs ++ (ms ∷ ys))
        ≡ flat_map aliases xs ++ (aliases ms ++ flat_map aliases ys)
  flat_map-middle [] ys ms = refl
  flat_map-middle (x ∷ xs) ys ms =
      rw (flat_map-middle xs ys ms) (sym (append_assoc (aliases x) _ _))

module _ {F : Type 0} (lang : Language F) where
  middle_Good :
      (k j : ℕ) (us : List ℕ) (xs ys : List (List (Metric F))) (ms rs : List (Metric F))
      → (Good k ((us ++ flat_map aliases xs) ++ (aliases ms ++ flat_map aliases ys))
          → Good j ((us ++ flat_map aliases xs) ++ (aliases rs ++ flat_map aliases ys)))
      → Good k (us ++ flat_map aliases (xs ++ (ms ∷ ys)))
      → Good j (us ++ flat_map aliases (xs ++ (rs ∷ ys)))
  middle_Good k j us xs ys ms rs f g =
      let d = λ (ms : List (Metric F)).
        ap (us ++◌) (flat_map-middle xs ys ms)
        ∙ sym (append_assoc us (flat_map aliases xs) (aliases ms ++ flat_map aliases ys)) in
      subst (Good j) (sym (d rs)) (f (subst (Good k) (d ms) g))

  born_Good :
      (c : Clock) (id : Text) (xs ys : List (List (Metric F))) (ms : List (Metric F)) (s : Node F)
      → Good s.alias_counter (aliases s.metrics.array ++ flat_map aliases (xs ++ (ms ∷ ys)))
      → Good (publish_d_birth lang c id ms s).0.alias_counter (
          aliases (publish_d_birth lang c id ms s).0.metrics.array
          ++ flat_map aliases (xs ++ ((publish_d_birth lang c id ms s).1 ∷ ys)))
  unfolding publish_d_birth
  born_Good c id xs ys ms s g =
      if_holds
        (λ (r : Node F × List (Metric F) × List (Sent F)).
          Good r.0.alias_counter (aliases r.0.metrics.array ++ flat_map aliases (xs ++ (r.1 ∷ ys))))
        s.is_online _ _
        (λ _.
          middle_Good s.alias_counter _ (aliases s.metrics.array) xs ys ms _
            (prepare_payload-Good lang c ms s.alias_counter
              (aliases s.metrics.array ++ flat_map aliases xs) (flat_map aliases ys))
            g)
        (λ _. g)

  switched_Good :
      (w v : World F)
      → v.devices ≡ w.devices
      → v.node.alias_counter ≡ w.node.alias_counter
      → v.node.metrics ≡ w.node.metrics
      → Good w.node.alias_counter (in_use w)
      → Good v.node.alias_counter (in_use v)
  switched_Good w v d k m g =
      subst (λ j. Good j (in_use v)) (sym k)
        (subst
          (λ (x : Metrics F).
            Good w.node.alias_counter (aliases x.array ++ flat_map aliases v.devices))
          (sym m)
          (subst
            (λ ds. Good w.node.alias_counter (aliases w.node.metrics.array ++ flat_map aliases ds))
            (sym d) g))

  Step-Good :
      (w v : World F)
      → Step lang w v
      → Good w.node.alias_counter (in_use w)
      → Good v.node.alias_counter (in_use v)
  unfolding on_offline on_close stop
  Step-Good w v (Step.device_born c id xs ys ms _ _ d n e) g =
      subst
        (λ (s : Node F).
          Good s.alias_counter (aliases s.metrics.array ++ flat_map aliases v.devices))
        (sym n)
        (subst
          (λ ds.
            Good (publish_d_birth lang c id ms w.node).0.alias_counter (
              aliases (publish_d_birth lang c id ms w.node).0.metrics.array ++ flat_map aliases ds))
          (sym e)
          (born_Good c id xs ys ms w.node (
            subst
              (λ ds.
                Good w.node.alias_counter (aliases w.node.metrics.array ++ flat_map aliases ds))
              d g)))
  Step-Good w v (Step.went_offline _ _ d n) g =
      switched_Good w v d (ap (λ (s : Node F). s.alias_counter) n)
        (ap (λ (s : Node F). s.metrics) n) g
  Step-Good w v (Step.closed _ _ d n) g =
      switched_Good w v d (ap (λ (s : Node F). s.alias_counter) n)
        (ap (λ (s : Node F). s.metrics) n) g
  Step-Good w v (Step.stopped _ _ d n) g =
      switched_Good w v d (ap (λ (s : Node F). s.alias_counter) n)
        (ap (λ (s : Node F). s.metrics) n) g

module _ {F : Type 0} (lang : Language F) where
  pub data Steps : World F → World F → Type 0 where
    done : (w : World F) → Steps w w
    then_step : (w v u : World F) → Step lang w v → Steps v u → Steps w u

  Steps-Good :
      (w v : World F)
      → Steps w v
      → Good w.node.alias_counter (in_use w)
      → Good v.node.alias_counter (in_use v)
  Steps-Good w _ (Steps.done _) g = g
  Steps-Good w v (Steps.then_step _ u _ s r) g = Steps-Good u v r (Step-Good lang w u s g)

  -- Where no metric has an alias yet, and the node is born, all its metrics being named, then until the
  -- next birth of the node, which comes with every new connection, through any births of devices,
  -- losses of the connection and stops, no two metrics of the node and of its devices have the same
  -- alias.
  pub publish_n_birth-Unique :
      (c : Clock) (w : World F) (t : Node F) (out : List (Sent F)) (v : World F)
      → All HasName w.node.metrics.array
      → in_use w ≡ []
      → publish_n_birth lang c w.node ≡ some (t, out)
      → Steps (record w { node = t }) v
      → Unique (in_use v)
  publish_n_birth-Unique c w t out v h z e r =
      let (t', e', a, k, o, l) = publish_n_birth-sent lang c w.node h in
      let same : t' ≡ t = ground (arith, e, e') in
      let g : Good 0 (aliases w.node.metrics.array ++ flat_map aliases w.devices) =
        subst (Good 0) (sym z) (tt, tt) in
      let b =
        prepare_payload-Good lang c w.node.metrics.array 0 [] (flat_map aliases w.devices) g in
      (Steps-Good (record w { node = t }) v r
        (subst
          (λ (s : Node F).
            Good s.alias_counter (aliases s.metrics.array ++ flat_map aliases w.devices))
          same
          (subst (λ j. Good j (aliases t'.metrics.array ++ flat_map aliases w.devices)) (sym k)
            (subst
              (λ (xs : List (Metric F)).
                Good (prepare_payload lang c true 0 w.node.metrics.array).counter
                  (aliases xs ++ flat_map aliases w.devices))
              (sym a) b)))).0
