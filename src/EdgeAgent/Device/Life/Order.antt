-- ===== src/EdgeAgent/Device/Life/Order.antt =====
-- The order of what a device publishes, through all that happens to it (acs-edge/lib/device.ts).
use amrc_connectivity_stack.Prelude.{
  ◌≡◌, refl, sym, ap, ◌∙◌, subst, Bool, true, false, List, [], ◌∷◌, ◌++◌, none, some, if_holds,
  option_holds, Option, Bool-cases, inl, inr, ◌==◌, ==_iff, nat_eq, list_eq, arith,
}
use amrc_connectivity_stack.Text.{Text}
use amrc_connectivity_stack.EdgeAgent.Types.{Metric, Value}
use amrc_connectivity_stack.EdgeAgent.Buffer.{Language, truthy}
use amrc_connectivity_stack.EdgeAgent.Metrics.{Clock, get_by_name}
use amrc_connectivity_stack.EdgeAgent.Payload.{prepare_payload}
use amrc_connectivity_stack.EdgeAgent.Node.{
  Node, Sent, device_birth, device_data, compression, with_compression, publish_d_birth,
  publish_d_data, publish_d_death,
}
use amrc_connectivity_stack.EdgeAgent.Device.{
  Device, Effect, publish_birth, birth_published, publish_data, publish_death, device_rebirth,
  device_disconnected, device_connected, subscribe_to_metric_changes, publish_buffer,
  stop_metric_subscription, buffer_or_publish,
}
use amrc_connectivity_stack.EdgeAgent.Device.Commands.{
  Command, Write, Commanded, command_name, command_effect, handle_commands, handle_d_cmd,
  set_written, of_names, write_callback,
}
use amrc_connectivity_stack.EdgeAgent.Device.Life.{
  true-false, Event, handle, handle_all, born, InOrder, InOrder-append, born-append, Ready, Waits,
  AllWait, Idle, Sound, connects, disconnects, ready, ticks, stops, birth_asked, settles, changes,
  commanded, written,
}

module _ {F : Type 0} (lang : Language F) (c : Clock) where
  with_compression-some :
      (s : Node F) (m : Metric F) (f : Value F → Sent F)
      → get_by_name compression s.metrics ≡ some m
      → with_compression s f ≡ f m.value ∷ []
  with_compression-some s m f h =
      ap (λ o. elim o as (λ _. List (Sent F)) [ none ↦ [] | some m ↦ f m.value ∷ [] ]) h

  -- What a node that is ready publishes.
  abbrev Births : Text → Node F × List (Metric F) × List (Sent F) → Type 0
  Births id r =
      (ms : List (Metric F)) × (v : Value F) × (r.2 ≡ device_birth id ms v ∷ []) × Ready r.0

  publish_d_birth-Births :
      (id : Text) (ms : List (Metric F)) (s : Node F)
      → Ready s
      → Births id (publish_d_birth lang c id ms s)
  unfolding publish_d_birth
  publish_d_birth-Births id ms s (o, m, h) =
      if_holds (Births id) s.is_online _ _
        (λ _. (
          (prepare_payload lang c true s.alias_counter ms).payload,
          m.value,
          with_compression-some s m
              (device_birth id (prepare_payload lang c true s.alias_counter ms).payload) h,
          (o, m, h),
        ))
        (λ e. let f : true ≡ false = sym o ∙ e in elim (true-false f) [ ])

  publish_d_data-sent :
      (id : Text) (ms : List (Metric F)) (s : Node F)
      → Ready s
      → (out : List (Metric F)) × (v : Value F) × ((publish_d_data lang c id ms s).1
          ≡ device_data id out v ∷ [])
  unfolding publish_d_data
  publish_d_data-sent id ms s (o, m, h) = (
    (prepare_payload lang c false s.alias_counter ms).payload,
    m.value,
    with_compression-some s m
        (device_data id (prepare_payload lang c false s.alias_counter ms).payload) h,
  )

  -- The device before an event.
  abbrev Calm : Bool → Device F → Type 0
  Calm b d = (d.is_connected ≡ b) × Idle d

  -- A birth after which the device is born if it is connected, and was not born if it is not.
  publish_birth-Sound :
      (b : Bool) (d : Device F) (s : Node F)
      → (d.is_connected ≡ false → b ≡ false)
      → Idle d
      → Ready s
      → Sound b (publish_birth lang c d s)
  unfolding publish_birth
  publish_birth-Sound b d s f i h =
      if_holds (Sound b) d.is_connected _ _
        (λ e.
          let (ms, v, q, r) = publish_d_birth-Births d.name d.metrics.array s h in
          record {
            in_order = subst (InOrder b) (sym q) tt;
            birth = e ∙ sym (ap (born b) q);
            idle = λ n. elim (true-false (sym e ∙ n)) [ ];
            ready = r;
          })
        (λ e. record { in_order = tt; birth = e ∙ sym (f e); idle = i; ready = h })

  kept-Sound :
      (b : Bool) (d : Device F) (s : Node F)
      → Calm b d
      → Ready s
      → Sound b (record { device = d; node = s; sent = [] })
  kept-Sound b d s (k, i) h = record { in_order = tt; birth = k; idle = i; ready = h }

  asked-Sound :
      (b : Bool) (d : Device F) (s : Node F)
      → Calm b d
      → Ready s
      → Sound b (publish_birth lang c d s)
  asked-Sound b d s (k, i) h = publish_birth-Sound b d s (λ e. sym k ∙ e) i h

  -- A device that is alive is connected.
  alive_connected : (d : Device F) → Idle d → d.is_alive ≡ true → d.is_connected ≡ true
  alive_connected d i a = elim (Bool-cases d.is_connected) [
    | inl t ↦ t
    | inr f ↦ elim (true-false (sym a ∙ (i f).0)) [ ]
  ]

  publish_data-Sound :
      (ms : List (Metric F)) (b : Bool) (d : Device F) (s : Node F)
      → Calm b d
      → Ready s
      → Sound b (publish_data lang c ms d s)
  unfolding publish_data
  publish_data-Sound ms b d s (k, i) h =
      if_holds (Sound b) d.is_alive _ _
        (λ e.
          let (out, v, q) = publish_d_data-sent d.name ms s h in
          record {
            in_order = subst (InOrder b) (sym q) (sym k ∙ alive_connected d i e, tt);
            birth = k ∙ sym (ap (born b) q);
            idle = i;
            ready = h;
          })
        (λ _. asked-Sound b d s (k, i) h)

  device_disconnected-Sound :
      (b : Bool) (d : Device F) (s : Node F)
      → d.births ≡ 0
      → Calm b d
      → Ready s
      → Sound b (device_disconnected c d s)
  unfolding device_disconnected publish_death publish_d_death
  device_disconnected-Sound b d s z (k, i) h =
      if_holds
        (λ (e : Effect F).
          Sound b (record e { device = record (e.device) { is_connected = false } }))
        d.is_connected _ _
        (λ e. record { in_order = (sym k ∙ e, tt); birth = refl; idle = λ _. (refl, z); ready = h })
        (λ e. record { in_order = tt; birth = sym e ∙ k; idle = λ _. i e; ready = h })

  -- A step that changes nothing but metrics, the buffer and the timer afterwards.
  changed-Sound :
      (b : Bool) (e : Effect F) (d : Device F)
      → d.is_alive ≡ e.device.is_alive
      → d.is_connected ≡ e.device.is_connected
      → d.births ≡ e.device.births
      → Sound b e
      → Sound b (record e { device = d })
  changed-Sound b e d p q o h = record {
    in_order = h.in_order;
    birth = q ∙ h.birth;
    idle = λ n. (p ∙ (h.idle (sym q ∙ n)).0, o ∙ (h.idle (sym q ∙ n)).1);
    ready = h.ready;
  }

  publish_buffer-Sound :
      (b : Bool) (d : Device F) (s : Node F)
      → Calm b d
      → Ready s
      → Sound b (publish_buffer lang c d s)
  unfolding publish_buffer
  publish_buffer-Sound b d s a h =
      changed-Sound b (publish_data lang c d.pub_buffer d s) _ refl refl refl
        (publish_data-Sound d.pub_buffer b d s a h)

  birth_published-Sound :
      (b : Bool) (d : Device F) (s : Node F)
      → Calm b d
      → Ready s
      → Sound b (record { device = birth_published d; node = s; sent = [] })
  unfolding birth_published
  birth_published-Sound b d s (k, i) h =
      if_holds (λ (t : Device F). Sound b (record { device = t; node = s; sent = [] }))
        (d.births == 0) _ _ (λ _. kept-Sound b d s (k, i) h)
        (λ e. record {
          in_order = tt;
          birth = k;
          idle = λ n. absurd (ground (arith, e, (i n).1, ==_iff d.births 0));
          ready = h;
        })

  -- The effects of a command.
  then-Sound :
      (b : Bool) (e r : Effect F)
      → Sound b e
      → Sound (born b e.sent) r
      → Sound b (record r { sent = e.sent ++ r.sent })
  then-Sound b e r h k = record {
    in_order = InOrder-append b e.sent r.sent h.in_order k.in_order;
    birth = k.birth ∙ sym (born-append b e.sent r.sent);
    idle = k.idle;
    ready = k.ready;
  }

  command_effect-Sound :
      (n : Option Text) (v : Value F) (b : Bool) (d : Device F) (s : Node F)
      → Calm b d
      → Ready s
      → Sound b (command_effect lang c n v d s)
  unfolding command_effect
  command_effect-Sound none v b d s a h = kept-Sound b d s a h
  command_effect-Sound (some n) v b d s a h =
      if_holds (Sound b) (n == device_rebirth) _ _
        (λ _.
          if_holds (Sound b) (truthy lang v) _ _ (λ _. asked-Sound b d s a h)
            (λ _. kept-Sound b d s a h))
        (λ _. kept-Sound b d s a h)

  handle_commands-Sound :
      (ms : List (Command F)) (b : Bool) (d : Device F) (s : Node F)
      → Calm b d
      → Ready s
      → Sound b (handle_commands lang c ms d s).effect
  unfolding handle_commands
  handle_commands-Sound [] b d s a h = kept-Sound b d s a h
  handle_commands-Sound (m ∷ ms) b d s a h =
      option_holds (λ (r : Commanded F). Sound b r.effect) (command_name m d.metrics) _ _
        (λ _. kept-Sound b d s a h)
        (λ n _.
          let e = command_effect lang c n m.value d s in
          let k = command_effect-Sound n m.value b d s a h in
          then-Sound b e (handle_commands lang c ms e.device e.node).effect k
            (handle_commands-Sound ms (born b e.sent) e.device e.node (k.birth, k.idle) k.ready))

  write_callback-Sound :
      (err : Bool) (ws : List (Write F)) (b : Bool) (d : Device F) (s : Node F)
      → Calm b d
      → Ready s
      → Sound b (write_callback lang c err ws d s)
  unfolding write_callback
  write_callback-Sound err ws b d s a h =
      let r = set_written c ws d.metrics in
      let t : Device F = record d { metrics = r.0 } in
      if_holds (Sound b) err _ _ (λ _. kept-Sound b d s a h)
        (λ _.
          option_holds (Sound b) r.1 _ _ (λ _. kept-Sound b t s a h)
            (λ ns _.
              let k = publish_data-Sound (of_names ns r.0) b t s a h in
              if_holds (Sound b) d.is_alive _ _
                (λ _.
                  changed-Sound b (publish_data lang c (of_names ns r.0) t s) _ refl refl refl k)
                (λ _. k)))

  handle-Sound :
      (e : Event F) (b : Bool) (d : Device F) (s : Node F)
      → Waits e d
      → Calm b d
      → Ready s
      → Sound b (handle lang c e d s)
  unfolding handle device_connected subscribe_to_metric_changes stop_metric_subscription
      buffer_or_publish handle_d_cmd
  handle-Sound connects b d s w (k, i) h =
      publish_birth-Sound b (record d { is_connected = true }) s (λ e. elim (true-false e) [ ])
        (λ e. elim (true-false e) [ ]) h
  handle-Sound disconnects b d s w a h = device_disconnected-Sound b d s w a h
  handle-Sound ready b d s w a h = kept-Sound b _ s a h
  handle-Sound ticks b d s w a h = publish_buffer-Sound b d s a h
  handle-Sound stops b d s w a h =
      if_holds (Sound b) d.pub_timer _ _
        (λ _. publish_buffer-Sound b (record d { pub_timer = false }) s a h)
        (λ _. kept-Sound b d s a h)
  handle-Sound birth_asked b d s w a h = asked-Sound b d s a h
  handle-Sound settles b d s w a h = birth_published-Sound b d s a h
  handle-Sound (changes ms) b d s w a h =
      if_holds (Sound b) d.pub_timer _ _ (λ _. kept-Sound b _ s a h)
        (λ _. publish_data-Sound ms b d s a h)
  handle-Sound (commanded ms) b d s w a h = handle_commands-Sound ms b d s a h
  handle-Sound (written err ws) b d s w a h = write_callback-Sound err ws b d s a h

  -- From a device that is connected exactly if it is born, and else is not alive and has no birth
  -- awaited, with a node that is connected, through any connections, disconnections, births asked for and settled, changed metrics,
  -- ticks and stops of the timer, commands and callbacks of writes, in which no disconnection comes
  -- while a birth is awaited: the device's data and deaths are only published after a birth with no
  -- death in between, it is connected exactly while it is born, and a device that is not connected is
  -- not alive.
  pub handle_all-InOrder :
      (es : List (Event F)) (b : Bool) (d : Device F) (s : Node F)
      → AllWait lang c es d s
      → Calm b d
      → Ready s
      → Sound b (handle_all lang c es d s)
  unfolding handle_all AllWait
  handle_all-InOrder [] b d s w a h = kept-Sound b d s a h
  handle_all-InOrder (e ∷ es) b d s (w, ws) a h =
      let r = handle lang c e d s in
      let k = handle-Sound e b d s w a h in
      then-Sound b r (handle_all lang c es r.device r.node) k
        (handle_all-InOrder es (born b r.sent) r.device r.node ws (k.birth, k.idle) k.ready)
