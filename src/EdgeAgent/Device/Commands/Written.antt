-- ===== src/EdgeAgent/Device/Commands/Written.antt =====
-- From a command to the new value of a metric (acs-edge/lib/device.ts, `_handleDCmd` and
-- `#writeMetrics`).
use amrc_connectivity_stack.Prelude.{
  ℕ, ◌≡◌, refl, sym, ap, ◌∙◌, true, false, or_else, List, [], ◌∷◌, ◌++◌, Option, none, some,
  Option-cases, nat_eq, list_eq, lookup, inl, inr,
}
use amrc_connectivity_stack.Text.{Text}
use amrc_connectivity_stack.EdgeAgent.Types.{Value, Metric}
use amrc_connectivity_stack.EdgeAgent.Buffer.{Language}
use amrc_connectivity_stack.EdgeAgent.Metrics.{
  Metrics, Clock, nth, modify, at_index, updated, get_by_name, set_value_at, set_value_by_index,
  set_value_by_name,
}
use amrc_connectivity_stack.EdgeAgent.Metrics.Finding.{none-some, nth-modify_self}
use amrc_connectivity_stack.EdgeAgent.Node.{Node, Sent, publish_d_data}
use amrc_connectivity_stack.EdgeAgent.Device.{Device, publish_birth, publish_data}
use amrc_connectivity_stack.EdgeAgent.Device.Commands.{
  Command, Write, number_of_long, is_control, command_name, command_writes, handle_commands,
  handle_d_cmd, set_written, written_name, of_names, idle, write_callback,
}

module _ {F : Type 0} (lang : Language F) (c : Clock) where
  abbrev pub written : Value F → Metric F → Write F
  written v m = record { old = some m; value = number_of_long lang v }

  -- What the metric is published in, by whether the device is alive.
  abbrev pub Published : Device F → Node F → Metric F → Metrics F → List (Sent F) → Type 0
  Published d s m y out =
      (d.is_alive ≡ true → out ≡ (publish_d_data lang c d.name (m ∷ []) s).1)
      × (d.is_alive ≡ false → out ≡ (publish_birth lang c (record d { metrics = y }) s).sent)

  named_write :
      (n : Text) (v : Value F) (m : Metric F) (x : Metrics F)
      → is_control n ≡ false
      → get_by_name n x ≡ some m
      → command_writes lang (some n) v x ≡ written v m ∷ []
  unfolding command_writes
  named_write n v m x i g =
      rw (command_writes, i) (ap (λ o. record { old = o; value = number_of_long lang v } ∷ []) g)

  named_command :
      (k : ℕ) (n : Text) (m : Command F) (x : Metrics F)
      → m.name ≡ k ∷ n
      → command_name m x ≡ some (some (k ∷ n))
  unfolding command_name
  named_command k n m x e = rw (command_name, e) refl

  set_value_of_name :
      (n : Text) (v : Value F) (m : Metric F) (x : Metrics F)
      → get_by_name n x ≡ some m
      → (y : Metrics F) × (set_value_by_name c n v none none x ≡ some y)
        × (get_by_name n y ≡ some (updated c v none none m))
  unfolding set_value_by_name set_value_by_index get_by_name
  set_value_of_name n v m x g = elim (Option-cases (lookup n x.indices.name_index)) [
    | inl d ↦ elim (none-some (sym (ap (at_index x) d) ∙ g)) [ ]
    | inr (i, d) ↦
        let h : nth i x.array ≡ some m = sym (ap (at_index x) d) ∙ g in
        let y : Metrics F = record x { array = modify (updated c v none none) i x.array } in
        (
          y,
          ap (λ o. set_value_at c o v none none x) d ∙ rw (set_value_by_index, h) refl,
          ap (at_index y) d ∙ nth-modify_self (updated c v none none) i x.array m h,
        )
  ]

  set_one :
      (n : Text) (w : Write F) (x y : Metrics F)
      → written_name w ≡ some n
      → set_value_by_name c n w.value none none x ≡ some y
      → set_written c (w ∷ []) x ≡ (y, some (n ∷ []))
  unfolding set_written
  set_one n w x y e p = rw (set_written, e, p) refl

  set_none :
      (n : Text) (w : Write F) (ws : List (Write F)) (x : Metrics F)
      → written_name w ≡ some n
      → set_value_by_name c n w.value none none x ≡ none
      → set_written c (w ∷ ws) x ≡ (x, none)
  unfolding set_written
  set_none n w ws x e p = rw (set_written, e, p) refl

  of_one :
      (n : Text) (m : Metric F) (y : Metrics F)
      → get_by_name n y ≡ some m
      → of_names (n ∷ []) y ≡ m ∷ []
  of_one n m y g = ap (λ o. elim o as (λ _. List (Metric F)) [ none ↦ [] | some m ↦ m ∷ [] ]) g

  -- The callback of a write that succeeded, for one metric: data of a device that is alive, and
  -- otherwise a birth.
  callback_sent :
      (n : Text) (w : Write F) (m : Metric F) (d : Device F) (s : Node F) (y : Metrics F)
      → set_written c (w ∷ []) d.metrics ≡ (y, some (n ∷ []))
      → get_by_name n y ≡ some m
      → Published d s m y (write_callback lang c false (w ∷ []) d s).sent
  unfolding write_callback publish_data
  callback_sent n w m d s y p g =
      let q : (set_written c (w ∷ []) d.metrics).0 ≡ y =
        ap (λ (r : Metrics F × Option (List Text)). r.0) p in
      (
        λ a.
            rw (write_callback, p, a)
              (ap (λ (x : Metrics F). (publish_d_data lang c d.name (of_names (n ∷ []) x) s).1) q
                ∙ ap (λ (ms : List (Metric F)). (publish_d_data lang c d.name ms s).1)
                    (of_one n m y g)),
        λ a.
            rw (write_callback, p, a)
              (ap
                (λ (x : Metrics F).
                  (publish_birth lang c (record d { metrics = x; is_alive = false }) s).sent)
                q),
      )

  -- A command for a metric of the device that is no control is written to the metric with that name;
  -- in the callback of a write that succeeded `getByName` gives the metric with the new value and the
  -- present time, and just that metric is published as data if the device is alive, and otherwise the
  -- device is born with the new metrics, if it is connected; a write that failed changes and publishes
  -- nothing.
  pub write_callback-handle_d_cmd :
      (k : ℕ) (n : Text) (cmd : Command F) (m : Metric F) (d : Device F) (s : Node F)
      → cmd.name ≡ k ∷ n
      → is_control (k ∷ n) ≡ false
      → get_by_name (k ∷ n) d.metrics ≡ some m
      → m.name ≡ some (k ∷ n)
      → ((handle_d_cmd lang c (cmd ∷ []) d s).1 ≡ written cmd.value m ∷ [])
        × (y : Metrics F) × (set_written c (written cmd.value m ∷ []) d.metrics
            ≡ (y, some ((k ∷ n) ∷ [])))
        × (get_by_name (k ∷ n) y ≡ some (updated c (number_of_long lang cmd.value) none none m))
        × Published d s
            (updated c (number_of_long lang cmd.value) none none m)
            y
            (write_callback lang c false (written cmd.value m ∷ []) d s).sent
        × (write_callback lang c true (written cmd.value m ∷ []) d s ≡ idle d s)
  unfolding handle_commands handle_d_cmd write_callback
  write_callback-handle_d_cmd k n cmd m d s e i g f =
      let (y, p, q) = set_value_of_name (k ∷ n) (number_of_long lang cmd.value) m d.metrics g in
      let ws : (handle_commands lang c (cmd ∷ []) d s).writes ≡ some (written cmd.value m ∷ []) =
        rw (handle_commands, named_command k n cmd d.metrics e)
          (ap (λ l. some (l ++ [])) (named_write (k ∷ n) cmd.value m d.metrics i g)) in
      let r = set_one (k ∷ n) (written cmd.value m) d.metrics y f p in
      (
        ap (λ o. or_else o []) ws,
        y,
        r,
        q,
        callback_sent (k ∷ n) (written cmd.value m) _ d s y r q,
        refl,
      )

  -- Where the name that a metric has come to have is not among those that it was indexed under, the
  -- callback of a write to it throws: no value is changed, and nothing is published.
  set_written_renamed :
      (n : Text) (w : Write F) (m : Metric F) (ws : List (Write F)) (x : Metrics F)
      → w.old ≡ some m
      → m.name ≡ some n
      → lookup n x.indices.name_index ≡ none
      → set_written c (w ∷ ws) x ≡ (x, none)
  unfolding set_value_by_name
  set_written_renamed n w m ws x o e l =
      set_none n w ws x
        (ap (λ o. elim o as (λ _. Option Text) [ none ↦ none | some m ↦ m.name ]) o ∙ e)
        (ap (λ o. set_value_at c o w.value none none x) l)
