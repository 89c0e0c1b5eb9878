-- ===== src/EdgeAgent/Device/Commands/Unnamed.antt =====
-- Commands that give an alias and no name (acs-edge/lib/device.ts, `_handleDCmd`).
use amrc_connectivity_stack.Prelude.{
  ℕ, ◌≡◌, refl, ap, ◌∙◌, subst, Left, Bool, lookup, true, false, List, [], ◌∷◌, ◌++◌, Option, none,
  some, if_holds, option_holds, Option-cases, ◌==◌, nat_eq, list_eq, inl, inr,
}
use amrc_connectivity_stack.Text.{Text}
use amrc_connectivity_stack.EdgeAgent.Types.{Value, Metric}
use amrc_connectivity_stack.EdgeAgent.Buffer.{Language, truthy}
use amrc_connectivity_stack.EdgeAgent.Metrics.{
  Metrics, Clock, add, of_array, build_indices, get_by_alias, nth, set_value_at, set_value_by_name,
  set_value_by_index,
}
use amrc_connectivity_stack.EdgeAgent.Node.{Node}
use amrc_connectivity_stack.EdgeAgent.Device.{
  Device, DeviceOptions, Effect, new_device, publish_birth, birth_published, publish_data,
  publish_death, device_connected, device_disconnected, subscribe_to_metric_changes, publish_buffer,
  stop_metric_subscription, buffer_or_publish, device_rebirth,
}
use amrc_connectivity_stack.EdgeAgent.Device.Life.{
  Event, connects, disconnects, ready, ticks, stops, birth_asked, settles, changes, commanded,
  written, handle, handle_all,
}
use amrc_connectivity_stack.EdgeAgent.Device.Commands.{
  Command, Commanded, command_name, command_effect, command_writes, more_writes, handle_commands,
  handle_d_cmd, Write, set_written, written_name, of_names, tidy_names, write_callback,
}

module _ {F : Type 0} where
  -- The index of aliases is empty after a step.
  abbrev NoAlias : Effect F → Type 0
  NoAlias e = e.device.metrics.alias_index ≡ []

module _ {F : Type 0} (lang : Language F) (c : Clock) where
  publish_birth-NoAlias :
      (d : Device F) (s : Node F) → d.metrics.alias_index ≡ [] → NoAlias (publish_birth lang c d s)
  unfolding publish_birth
  publish_birth-NoAlias d s h = if_holds NoAlias d.is_connected _ _ (λ _. h) (λ _. h)

  publish_data-NoAlias :
      (ms : List (Metric F)) (d : Device F) (s : Node F)
      → d.metrics.alias_index ≡ []
      → NoAlias (publish_data lang c ms d s)
  unfolding publish_data
  publish_data-NoAlias ms d s h =
      if_holds NoAlias d.is_alive _ _ (λ _. h) (λ _. publish_birth-NoAlias d s h)

  publish_death-NoAlias :
      (d : Device F) (s : Node F) → d.metrics.alias_index ≡ [] → NoAlias (publish_death c d s)
  unfolding publish_death
  publish_death-NoAlias d s h = if_holds NoAlias d.is_connected _ _ (λ _. h) (λ _. h)

  command_effect-NoAlias :
      (n : Option Text) (v : Value F) (d : Device F) (s : Node F)
      → d.metrics.alias_index ≡ []
      → NoAlias (command_effect lang c n v d s)
  unfolding command_effect
  command_effect-NoAlias none v d s h = h
  command_effect-NoAlias (some n) v d s h =
      if_holds NoAlias (n == device_rebirth) _ _
        (λ _. if_holds NoAlias (truthy lang v) _ _ (λ _. publish_birth-NoAlias d s h) (λ _. h))
        (λ _. h)

  handle_commands-NoAlias :
      (ms : List (Command F)) (d : Device F) (s : Node F)
      → d.metrics.alias_index ≡ []
      → NoAlias (handle_commands lang c ms d s).effect
  unfolding handle_commands
  handle_commands-NoAlias [] d s h = h
  handle_commands-NoAlias (m ∷ ms) d s h =
      option_holds (λ (r : Commanded F). NoAlias r.effect) (command_name m d.metrics) _ _ (λ _. h)
        (λ n _.
          let e = command_effect lang c n m.value d s in
          handle_commands-NoAlias ms e.device e.node (command_effect-NoAlias n m.value d s h))

  set_value_at-alias_index :
      (o : Option ℕ) (v : Value F) (x : Metrics F)
      → Left (λ (y : Metrics F). y.alias_index ≡ x.alias_index) (set_value_at c o v none none x)
  unfolding set_value_by_index
  set_value_at-alias_index none v x = tt
  set_value_at-alias_index (some i) v x =
      option_holds (Left (λ (y : Metrics F). y.alias_index ≡ x.alias_index)) (nth i x.array) _ _
        (λ _. tt) (λ _ _. refl)

  set_value_by_name-alias_index :
      (n : Text) (v : Value F) (x : Metrics F)
      → Left
          (λ (y : Metrics F). y.alias_index ≡ x.alias_index)
          (set_value_by_name c n v none none x)
  unfolding set_value_by_name
  set_value_by_name-alias_index n v x = set_value_at-alias_index (lookup n x.indices.name_index) v x

  set_written-alias_index :
      (ws : List (Write F)) (x : Metrics F) → (set_written c ws x).0.alias_index ≡ x.alias_index
  unfolding set_written
  set_written-alias_index [] x = refl
  set_written-alias_index (w ∷ ws) x =
      option_holds (λ (r : Metrics F × Option (List Text)). r.0.alias_index ≡ x.alias_index)
        (written_name w) _ _ (λ _. set_written-alias_index ws x)
        (λ n _.
          option_holds (λ (r : Metrics F × Option (List Text)). r.0.alias_index ≡ x.alias_index)
            (set_value_by_name c n w.value none none x) _ _ (λ _. refl)
            (λ y e.
              set_written-alias_index ws y
              ∙ subst (Left (λ (y : Metrics F). y.alias_index ≡ x.alias_index)) e
                  (set_value_by_name-alias_index n w.value x)))

  tidy_names-alias_index :
      (ns : List Text) (x : Metrics F) → (tidy_names lang ns x).alias_index ≡ x.alias_index
  tidy_names-alias_index [] x = refl
  tidy_names-alias_index (n ∷ ns) x =
      tidy_names-alias_index ns _
      ∙ option_holds (λ (y : Metrics F). y.alias_index ≡ x.alias_index)
          (lookup n x.indices.name_index) _ _ (λ _. refl) (λ _ _. refl)

  write_callback-NoAlias :
      (err : Bool) (ws : List (Write F)) (d : Device F) (s : Node F)
      → d.metrics.alias_index ≡ []
      → NoAlias (write_callback lang c err ws d s)
  unfolding write_callback
  write_callback-NoAlias err ws d s h =
      let r = set_written c ws d.metrics in
      let t : Device F = record d { metrics = r.0 } in
      let k : r.0.alias_index ≡ [] = set_written-alias_index ws d.metrics ∙ h in
      if_holds NoAlias err _ _ (λ _. h)
        (λ _.
          option_holds NoAlias r.1 _ _ (λ _. k)
            (λ ns _.
              if_holds NoAlias d.is_alive _ _ (λ _. tidy_names-alias_index ns r.0 ∙ k)
                (λ _. publish_data-NoAlias (of_names ns r.0) t s k)))

  handle-NoAlias :
      (e : Event F) (d : Device F) (s : Node F)
      → d.metrics.alias_index ≡ []
      → NoAlias (handle lang c e d s)
  unfolding handle device_connected device_disconnected subscribe_to_metric_changes
      stop_metric_subscription publish_buffer buffer_or_publish birth_published handle_d_cmd
  handle-NoAlias connects d s h = publish_birth-NoAlias (record d { is_connected = true }) s h
  handle-NoAlias disconnects d s h = publish_death-NoAlias d s h
  handle-NoAlias ready d s h = h
  handle-NoAlias ticks d s h = publish_data-NoAlias d.pub_buffer d s h
  handle-NoAlias stops d s h =
      if_holds NoAlias d.pub_timer _ _
        (λ _. publish_data-NoAlias d.pub_buffer (record d { pub_timer = false }) s h) (λ _. h)
  handle-NoAlias birth_asked d s h = publish_birth-NoAlias d s h
  handle-NoAlias settles d s h =
      if_holds (λ (t : Device F). t.metrics.alias_index ≡ []) (d.births == 0) _ _ (λ _. h) (λ _. h)
  handle-NoAlias (commanded ms) d s h = handle_commands-NoAlias ms d s h
  handle-NoAlias (written err ws) d s h = write_callback-NoAlias err ws d s h
  handle-NoAlias (changes ms) d s h =
      if_holds NoAlias d.pub_timer _ _ (λ _. h) (λ _. publish_data-NoAlias ms d s h)

  handle_all-NoAlias :
      (es : List (Event F)) (d : Device F) (s : Node F)
      → d.metrics.alias_index ≡ []
      → NoAlias (handle_all lang c es d s)
  unfolding handle_all
  handle_all-NoAlias [] d s h = h
  handle_all-NoAlias (e ∷ es) d s h =
      handle_all-NoAlias es (handle lang c e d s).device (handle lang c e d s).node
        (handle-NoAlias e d s h)

  unnamed_throws :
      (m : Command F) (x : Metrics F) → x.alias_index ≡ [] → m.name ≡ [] → command_name m x ≡ none
  unfolding command_name get_by_alias
  unnamed_throws m x h e = elim (Option-cases m.alias) [
    | inl d ↦ rw (command_name, e, d) refl
    | inr (a, d) ↦ rw (command_name, e, d, h) refl
  ]

  unnamed_writes :
      (ms ns : List (Command F)) (m : Command F) (d : Device F) (s : Node F)
      → d.metrics.alias_index ≡ []
      → m.name ≡ []
      → (handle_commands lang c (ms ++ (m ∷ ns)) d s).writes ≡ none
  unfolding handle_commands
  unnamed_writes [] ns m d s h e = rw (handle_commands, unnamed_throws m d.metrics h e) refl
  unnamed_writes (k ∷ ms) ns m d s h e =
      option_holds (λ (r : Commanded F). r.writes ≡ none) (command_name k d.metrics) _ _ (λ _. refl)
        (λ n _.
          let f = command_effect lang c n k.value d s in
          ap (more_writes (command_writes lang n k.value d.metrics))
            (unnamed_writes ms ns m f.device f.node (command_effect-NoAlias n k.value d s h) e))

  -- Whatever has happened to a new device, a command with a metric that has an alias and no name ends in
  -- an exception, and nothing of it is written.
  pub handle_commands-handle_all :
      (o : DeviceOptions F) (es : List (Event F)) (ms ns : List (Command F)) (m : Command F)
      (s t : Node F)
      → m.name ≡ []
      → (handle_commands lang c
          (ms ++ (m ∷ ns))
          (handle_all lang c es (new_device c o) s).device
          t).writes
        ≡ none
  unfolding new_device add of_array build_indices
  handle_commands-handle_all o es ms ns m s t e =
      unnamed_writes ms ns m (handle_all lang c es (new_device c o) s).device t
        (handle_all-NoAlias es (new_device c o) s refl) e
