-- ===== src/EdgeAgent/Node.antt =====
-- The class `SparkplugNode` (acs-edge/lib/sparkplugNode.ts). An async method is one step: the metrics
-- are prepared at once, and what follows runs before the next event.
pub mod Session
pub mod Birth
pub mod Rebirth
use mathlib.Core.List.{map}
use amrc_connectivity_stack.Prelude.{
  ℕ, suc, ◌+◌, Bool, true, false, List, [], ◌∷◌, ◌++◌, Option, none, some, if◌then◌else◌, ◌==◌,
  nat_eq, list_eq, or_else,
}
use amrc_connectivity_stack.Text.{Text, codes}
use amrc_connectivity_stack.EdgeAgent.Types.{Value, Metric}
use amrc_connectivity_stack.EdgeAgent.Buffer.{Language}
use amrc_connectivity_stack.EdgeAgent.Metrics.{
  Metrics, Clock, of_array, set_alias, get_by_name, get_by_alias,
}
use amrc_connectivity_stack.EdgeAgent.Payload.{
  Prepared, prepare_payload, normalize_to_nanos, ns_to_long,
}

pub record Node (F : Type 0) : Type 0 where
  pub metrics : Metrics F
  pub is_online : Bool
  pub alias_counter : ℕ

-- What the node publishes, and the events that it emits.
pub data Sent (F : Type 0) : Type 0 where
  node_birth : List (Metric F) → Sent F
  device_birth device_data : Text → List (Metric F) → Value F → Sent F
  device_death : Text → ℕ → Sent F
  dbirth_all stopping : Sent F

abbrev pub compression : Text
compression = codes "Node Control/Payload Compression"

abbrev pub rebirth : Text
rebirth = codes "Node Control/Rebirth"

abbrev pub reload_config : Text
reload_config = codes "Node Control/Reload Edge Agent Config"

-- The timestamp of a payload.
unfoldable pub now_long : Clock → ℕ
now_long c = ns_to_long (normalize_to_nanos c.ms)

module _ {F : Type 0} where
  -- The constructor
  unfoldable pub new_node : Node F
  new_node = record { metrics = of_array []; is_online = false; alias_counter = 0 }

  -- `setAlias` for each metric of a birth, by its place in the payload.
  unfoldable pub set_aliases : ℕ → List (Metric F) → Metrics F → Option (Metrics F)
  set_aliases i [] x = some x
  set_aliases i (m ∷ ms) x = elim m.alias [
    | none ↦ none
    | some a ↦ elim (set_alias i a x) [ none ↦ none | some y ↦ set_aliases (suc i) ms y ]
  ]

  -- `#publishNBirth`; `none` is its exception.
  unfoldable pub publish_n_birth : Language F → Clock → Node F → Option (Node F × List (Sent F))
  publish_n_birth lang c s =
      let p = prepare_payload lang c true 0 s.metrics.array in
      elim (set_aliases 0 p.payload (record (s.metrics) { array = p.metrics })) [
        | none ↦ none
        | some x ↦ some (
          record s { metrics = x; alias_counter = p.counter },
          node_birth p.payload ∷ dbirth_all ∷ [],
        )
      ]

  -- What is published with the option `compress`, unless reading that throws.
  abbrev pub with_compression : Node F → (Value F → Sent F) → List (Sent F)
  with_compression s f = elim (get_by_name compression s.metrics) [
    | none ↦ []
    | some m ↦ f m.value ∷ []
  ]

  -- The node, the metrics of the device as they are left, and what is published.
  unfoldable pub publish_d_birth :
      Language F
      → Clock
      → Text
      → List (Metric F)
      → Node F
      → Node F × List (Metric F) × List (Sent F)
  publish_d_birth lang c id ms s =
      let p = prepare_payload lang c true s.alias_counter ms in
      if s.is_online
      then (
        record s { alias_counter = p.counter },
        p.metrics,
        with_compression s (device_birth id p.payload),
      )
      else (s, ms, [])

  unfoldable pub publish_d_data :
      Language F → Clock → Text → List (Metric F) → Node F → List (Metric F) × List (Sent F)
  publish_d_data lang c id ms s =
      let p = prepare_payload lang c false s.alias_counter ms in
      (p.metrics, with_compression s (device_data id p.payload))

  unfoldable pub publish_d_death : Clock → Text → List (Sent F)
  publish_d_death c id = device_death id (now_long c) ∷ []

  -- The metric of an NCMD, with its name and its alias; an undefined name is the empty one.
  abbrev command_name : Text → Option ℕ → Node F → Option Text
  command_name [] none s = none
  command_name [] (some a) s = elim (get_by_alias a s.metrics) [
    | none ↦ none
    | some m ↦ some (or_else m.name [])
  ]
  command_name (c ∷ n) a s = some (c ∷ n)

  unfoldable pub command : Language F → Clock → Option Text → Node F → Node F × List (Sent F)
  command lang c none s = (s, [])
  command lang c (some n) s =
      if n == rebirth
      then elim (publish_n_birth lang c s) [ none ↦ (s, []) | some r ↦ r ]
      else (s, if n == reload_config then stopping ∷ [] else [])

  -- `#handleNCmd`, for each metric: one that throws ends alone.
  unfoldable pub handle_n_cmd :
      Language F → Clock → List (Text × Option ℕ) → Node F → Node F × List (Sent F)
  handle_n_cmd lang c [] s = (s, [])
  handle_n_cmd lang c ((n, a) ∷ ms) s =
      let (t, out) = command lang c (command_name n a s) s in
      let (u, rest) = handle_n_cmd lang c ms t in (u, out ++ rest)

  unfoldable pub stop : Node F → Node F
  stop s = record s { is_online = false }

  unfoldable pub on_connect : Node F → Node F
  on_connect s = record s { is_online = true }

  unfoldable pub on_reconnect : Node F → Node F
  on_reconnect s = s

  unfoldable pub on_offline : Node F → Node F
  on_offline s = record s { is_online = false }

  unfoldable pub on_error : Node F → Node F
  on_error s = s

  unfoldable pub on_close : Node F → Node F
  on_close s = record s { is_online = false }
