-- ===== src/EdgeAgent/Device/Life.antt =====
-- The order of a device's births, data and deaths (acs-edge/lib/device.ts).
pub mod Order
use amrc_connectivity_stack.Prelude.{
  ◌≡◌, refl, sym, ap, ◌∙◌, subst, Bool, true, false, List, [], ◌∷◌, ◌++◌, none, some, if◌then◌else◌,
  if_holds, option_holds, Option, Bool-cases, inl, inr, ◌==◌, ==_iff, nat_eq, list_eq, arith,
}
use amrc_connectivity_stack.Text.{Text}
use amrc_connectivity_stack.EdgeAgent.Types.{Metric, Value}
use amrc_connectivity_stack.EdgeAgent.Buffer.{Language, truthy}
use amrc_connectivity_stack.EdgeAgent.Metrics.{Clock, get_by_name}
use amrc_connectivity_stack.EdgeAgent.Payload.{prepare_payload}
use amrc_connectivity_stack.EdgeAgent.Node.{
  Node, Sent, node_birth, device_birth, device_data, device_death, dbirth_all, stopping,
  compression, with_compression, publish_d_birth, publish_d_data, publish_d_death,
}
use amrc_connectivity_stack.EdgeAgent.Device.{
  Device, Effect, publish_birth, birth_published, publish_data, publish_death, device_rebirth,
  device_disconnected, device_connected, subscribe_to_metric_changes, publish_buffer,
  stop_metric_subscription, buffer_or_publish,
}
use amrc_connectivity_stack.EdgeAgent.Device.Commands.{
  Command, Write, Commanded, command_name, command_effect, handle_commands, handle_d_cmd,
  set_written, of_names, write_callback,
}

true-false : true ≡ false → ⊥
true-false e = subst (λ b. if b then Unit else ⊥) e tt

-- What happens to a device: its connection, changed metrics, the timer, a request of a birth, the
-- `then` of a birth, a DCMD, and the callback of a write, by whether the connection gave an error.
pub data Event (F : Type 0) : Type 0 where
  connects disconnects ready ticks stops birth_asked settles : Event F
  changes : List (Metric F) → Event F
  commanded : List (Command F) → Event F
  written : Bool → List (Write F) → Event F

module _ {F : Type 0} where
  unfoldable pub handle : Language F → Clock → Event F → Device F → Node F → Effect F
  handle lang c connects d s = device_connected lang c d s
  handle lang c disconnects d s = device_disconnected c d s
  handle lang c ready d s = record { device = subscribe_to_metric_changes d; node = s; sent = [] }
  handle lang c ticks d s = publish_buffer lang c d s
  handle lang c stops d s = stop_metric_subscription lang c d s
  handle lang c birth_asked d s = publish_birth lang c d s
  handle lang c settles d s = record { device = birth_published d; node = s; sent = [] }
  handle lang c (changes ms) d s = buffer_or_publish lang c ms d s
  handle lang c (commanded ms) d s = (handle_d_cmd lang c ms d s).0
  handle lang c (written err ws) d s = write_callback lang c err ws d s

  unfoldable pub handle_all : Language F → Clock → List (Event F) → Device F → Node F → Effect F
  handle_all lang c [] d s = record { device = d; node = s; sent = [] }
  handle_all lang c (e ∷ es) d s =
      let r = handle lang c e d s in
      let t = handle_all lang c es r.device r.node in record t { sent = r.sent ++ t.sent }

  -- The device is born after what was published, if `b` says that it was before.
  abbrev pub born : Bool → List (Sent F) → Bool
  born b [] = b
  born b (device_birth id ms v ∷ out) = born true out
  born b (device_death id t ∷ out) = born false out
  born b (_ ∷ out) = born b out

  -- Data and deaths are only published while the device is born.
  abbrev pub InOrder : Bool → List (Sent F) → Type 0
  InOrder b [] = Unit
  InOrder b (device_birth id ms v ∷ out) = InOrder true out
  InOrder b (device_data id ms v ∷ out) = (b ≡ true) × InOrder b out
  InOrder b (device_death id t ∷ out) = (b ≡ true) × InOrder false out
  InOrder b (node_birth ms ∷ out) = InOrder b out
  InOrder b (dbirth_all ∷ out) = InOrder b out
  InOrder b (stopping ∷ out) = InOrder b out

  InOrder-append :
      (b : Bool) (xs ys : List (Sent F))
      → InOrder b xs
      → InOrder (born b xs) ys
      → InOrder b (xs ++ ys)
  InOrder-append b [] ys h k = k
  InOrder-append b (device_birth id ms v ∷ xs) ys h k = InOrder-append true xs ys h k
  InOrder-append b (device_data id ms v ∷ xs) ys (e, h) k = (e, InOrder-append b xs ys h k)
  InOrder-append b (device_death id t ∷ xs) ys (e, h) k = (e, InOrder-append false xs ys h k)
  InOrder-append b (node_birth ms ∷ xs) ys h k = InOrder-append b xs ys h k
  InOrder-append b (dbirth_all ∷ xs) ys h k = InOrder-append b xs ys h k
  InOrder-append b (stopping ∷ xs) ys h k = InOrder-append b xs ys h k

  born-append : (b : Bool) (xs ys : List (Sent F)) → born b (xs ++ ys) ≡ born (born b xs) ys
  born-append b [] ys = refl
  born-append b (device_birth id ms v ∷ xs) ys = born-append true xs ys
  born-append b (device_data id ms v ∷ xs) ys = born-append b xs ys
  born-append b (device_death id t ∷ xs) ys = born-append false xs ys
  born-append b (node_birth ms ∷ xs) ys = born-append b xs ys
  born-append b (dbirth_all ∷ xs) ys = born-append b xs ys
  born-append b (stopping ∷ xs) ys = born-append b xs ys

  -- The node is connected, and has its metric for compression.
  abbrev pub Ready : Node F → Type 0
  Ready s = (s.is_online ≡ true) × (m : Metric F) × (get_by_name compression s.metrics ≡ some m)

  -- No disconnection comes while a birth is awaited.
  abbrev pub Waits : Event F → Device F → Type 0
  Waits disconnects d = d.births ≡ 0
  Waits _ d = Unit

  unfoldable pub AllWait : Language F → Clock → List (Event F) → Device F → Node F → Type 0
  AllWait lang c [] d s = Unit
  AllWait lang c (e ∷ es) d s =
      Waits e d × AllWait lang c es (handle lang c e d s).device (handle lang c e d s).node

  -- A device that is not connected is not alive, and no birth of it is awaited.
  abbrev pub Idle : Device F → Type 0
  Idle d = d.is_connected ≡ false → (d.is_alive ≡ false) × (d.births ≡ 0)

  -- A device is connected exactly while it is born.
  pub record Sound (b : Bool) (r : Effect F) : Type 0 where
    pub in_order : InOrder b r.sent
    pub birth : r.device.is_connected ≡ born b r.sent
    pub idle : Idle r.device
    pub ready : Ready r.node
