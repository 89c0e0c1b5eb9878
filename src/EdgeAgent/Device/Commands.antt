-- ===== src/EdgeAgent/Device/Commands.antt =====
-- Commands to a device (acs-edge/lib/device.ts, `_handleDCmd` and `#writeMetrics`).
pub mod Unnamed
pub mod Written
use amrc_connectivity_stack.Prelude.{
  ℕ, zero, suc, Bool, true, false, List, [], ◌∷◌, ◌++◌, Option, none, some, if◌then◌else◌, ◌==◌,
  ◌||◌, nat_eq, list_eq, lookup, or_else,
}
use amrc_connectivity_stack.Text.{Text}
use amrc_connectivity_stack.EdgeAgent.Types.{Value, Metric}
use amrc_connectivity_stack.EdgeAgent.Types.Value.{long}
use amrc_connectivity_stack.EdgeAgent.Buffer.{Language, truthy, from_number}
use amrc_connectivity_stack.EdgeAgent.Metrics.{
  Metrics, Clock, modify, get_by_name, get_by_alias, set_value_by_name,
}
use amrc_connectivity_stack.EdgeAgent.Payload.{tidy}
use amrc_connectivity_stack.EdgeAgent.Node.{Node, Sent, publish_d_data}
use amrc_connectivity_stack.EdgeAgent.Device.{
  Device, Effect, publish_birth, publish_data, polling_interval, publish_interval, reboot,
  device_rebirth,
}

-- The metric of a DCMD; an undefined name is the empty one.
pub record Command (F : Type 0) : Type 0 where
  pub name : Text
  pub alias : Option ℕ
  pub value : Value F

-- What is to be written: the metric of the device, if there is one, and the new value.
pub record Write (F : Type 0) : Type 0 where
  pub old : Option (Metric F)
  pub value : Value F

-- The effect of a payload so far; `writes` is `none` when an exception ended it.
pub record Commanded (F : Type 0) : Type 0 where
  pub effect : Effect F
  pub writes : Option (List (Write F))

abbrev pub is_control : Text → Bool
is_control n = n == reboot || n == device_rebirth || n == polling_interval || n == publish_interval

module _ {F : Type 0} where
  -- The name of a command, which may be undefined; `none` is a TypeError.
  unfoldable pub command_name : Command F → Metrics F → Option (Option Text)
  command_name m x = elim m.name [
    | [] ↦ elim m.alias [
      | none ↦ none
      | some a ↦ elim (get_by_alias a x) [ none ↦ none | some t ↦ some t.name ]
    ]
    | c ∷ n ↦ some (some (c ∷ n))
  ]

  -- `Long.toNumber`
  abbrev pub number_of_long : Language F → Value F → Value F
  number_of_long lang (long n) = from_number (lang.double n)
  number_of_long lang v = v

  abbrev pub idle : Device F → Node F → Effect F
  idle d s = record { device = d; node = s; sent = [] }

  -- One metric of the payload, by its name: the effect, and what is to be written.
  unfoldable pub command_effect :
      Language F → Clock → Option Text → Value F → Device F → Node F → Effect F
  command_effect lang c none v d s = idle d s
  command_effect lang c (some n) v d s =
      if n == device_rebirth
      then (if truthy lang v then publish_birth lang c d s else idle d s)
      else idle d s

  unfoldable pub command_writes : Language F → Option Text → Value F → Metrics F → List (Write F)
  command_writes lang none v x = []
  command_writes lang (some n) v x =
      if is_control n
      then []
      else record { old = get_by_name n x; value = number_of_long lang v } ∷ []

  abbrev pub more_writes : List (Write F) → Option (List (Write F)) → Option (List (Write F))
  more_writes ws none = none
  more_writes ws (some us) = some (ws ++ us)

  -- The loop of `_handleDCmd`
  unfoldable pub handle_commands :
      Language F → Clock → List (Command F) → Device F → Node F → Commanded F
  handle_commands lang c [] d s = record { effect = idle d s; writes = some [] }
  handle_commands lang c (m ∷ ms) d s = elim (command_name m d.metrics) [
    | none ↦ record { effect = idle d s; writes = none }
    | some n ↦
        let e = command_effect lang c n m.value d s in
        let r = handle_commands lang c ms e.device e.node in
        record {
          effect = record (r.effect) { sent = e.sent ++ r.effect.sent };
          writes = more_writes (command_writes lang n m.value d.metrics) r.writes;
        }
  ]

  -- What `_handleDCmd` asks the connection to write, after the effects; with nothing to write it does
  -- not ask.
  unfoldable pub handle_d_cmd :
      Language F → Clock → List (Command F) → Device F → Node F → Effect F × List (Write F)
  handle_d_cmd lang c ms d s =
      let r = handle_commands lang c ms d s in (r.effect, or_else r.writes [])

  abbrev pub written_name : Write F → Option Text
  written_name w = elim w.old [ none ↦ none | some m ↦ m.name ]

  -- The new values in the device's metrics, and the names of those that are to be published; `none`
  -- where `setValueByName` throws.
  unfoldable pub set_written : Clock → List (Write F) → Metrics F → Metrics F × Option (List Text)
  set_written c [] x = (x, some [])
  set_written c (w ∷ ws) x = elim (written_name w) [
    | none ↦ set_written c ws x
    | some n ↦ elim (set_value_by_name c n w.value none none x) [
      | none ↦ (x, none)
      | some y ↦
          let r = set_written c ws y in (r.0, elim r.1 [ none ↦ none | some ns ↦ some (n ∷ ns) ])
    ]
  ]

  -- The metrics of some names; they are the device's own objects.
  abbrev pub of_names : List Text → Metrics F → List (Metric F)
  of_names [] x = []
  of_names (n ∷ ns) x = elim (get_by_name n x) [ none ↦ of_names ns x | some m ↦ m ∷ of_names ns x ]

  abbrev pub tidy_own : Language F → Metric F → Metric F
  tidy_own lang m = elim m.name [ none ↦ m | some n ↦ tidy lang n m ]

  -- What publishing does to the device's own objects.
  abbrev pub tidy_names : Language F → List Text → Metrics F → Metrics F
  tidy_names lang [] x = x
  tidy_names lang (n ∷ ns) x = tidy_names lang ns (elim (lookup n x.indices.name_index) [
    | none ↦ x
    | some i ↦ record x { array = modify (tidy_own lang) i x.array }
  ])

  -- The callback of `#writeMetrics`, by whether the connection gave an error.
  unfoldable pub write_callback :
      Language F → Clock → Bool → List (Write F) → Device F → Node F → Effect F
  write_callback lang c err ws d s =
      let r = set_written c ws d.metrics in
      let t = record d { metrics = r.0 } in
      if err then idle d s else elim r.1 [
        | none ↦ idle t s
        | some ns ↦
            let e = publish_data lang c (of_names ns r.0) t s in
            if d.is_alive
            then record e { device = record (e.device) { metrics = tidy_names lang ns r.0 } }
            else e
      ]
