-- ===== src/EdgeAgent/Tests/Agent.antt =====
-- Runs of a node and its devices, and their theorems at concrete inputs.
use mathlib.Core.List.{map}
use amrc_connectivity_stack.Prelude.{
  String, ℕ, ◌≡◌, refl, inl, pos, Bool, true, false, List, [], ◌∷◌, ◌++◌, Option, none, some, ◌==◌,
  nat_eq, list_eq, In,
}
use amrc_connectivity_stack.Text.{Text, codes}
use amrc_connectivity_stack.EdgeAgent.Types.{Value, Metric}
use amrc_connectivity_stack.EdgeAgent.Types.DataType.{boolean}
use amrc_connectivity_stack.EdgeAgent.Types.Value.{number, bool, null}
use amrc_connectivity_stack.EdgeAgent.Metrics.{
  Metrics, nth, modify, has_get, readable_addr, path_of, index_at, index_metric, build_from,
  build_indices, of_array, add, set_alias, get_by_name, get_by_alias, get_paths_for_addr, addr_path,
  get_by_addr_path, updated, set_value_by_index, set_value_by_name, set_value_by_addr_path,
}
use amrc_connectivity_stack.EdgeAgent.Payload.{
  normalize_to_nanos, ns_to_long, plain, is_plain, tidy, nanos, new_metric, prepare_payload,
}
use amrc_connectivity_stack.EdgeAgent.Node.{
  Node, Sent, node_birth, device_birth, device_data, device_death, dbirth_all, stopping,
  set_aliases, publish_n_birth, publish_d_birth, publish_d_data, publish_d_death, now_long,
  handle_n_cmd, command,
}
use amrc_connectivity_stack.EdgeAgent.Node.Session.{
  World, Steps, Step, in_use, publish_n_birth-Unique,
}
use amrc_connectivity_stack.EdgeAgent.Node.Rebirth.{publish_d_birth-publish_n_birth}
use amrc_connectivity_stack.EdgeAgent.Payload.Aliases.{Unique, aliases}
use amrc_connectivity_stack.EdgeAgent.Device.{
  Device, DeviceOptions, default_metrics, new_device, publish_birth, birth_published, publish_data,
  publish_death, device_disconnected, device_connected, subscribe_to_metric_changes, publish_buffer,
  stop_metric_subscription, buffer_or_publish,
}
use amrc_connectivity_stack.EdgeAgent.Device.Readings.{
  Reader, Changed, same_value, unchanged, set_changed, handle_value, handle_path, handle_paths,
  handle_addrs, handle_data,
}
use amrc_connectivity_stack.EdgeAgent.Device.Life.{
  Event, connects, disconnects, ready, changes, settles, AllWait, handle, handle_all, Sound,
}
use amrc_connectivity_stack.EdgeAgent.Device.Life.Order.{handle_all-InOrder}
use amrc_connectivity_stack.EdgeAgent.Device.Changes.{handle_value-handle_value}
use amrc_connectivity_stack.EdgeAgent.Device.Commands.{
  Command, Write, idle, command_name, command_effect, command_writes, handle_commands, handle_d_cmd,
  set_written, write_callback,
}
use amrc_connectivity_stack.EdgeAgent.Device.Commands.Unnamed.{handle_commands-handle_all}
use amrc_connectivity_stack.EdgeAgent.Device.Commands.Written.{
  Published, write_callback-handle_d_cmd,
}
use amrc_connectivity_stack.EdgeAgent.Tests.{lang, metric, c, temp, level, sensors}

abbrev switch : Metric ℕ
switch = metric "Node Control/Payload Compression" boolean (bool false) none

abbrev node : Node ℕ
node = record { metrics = made; is_online = true; alias_counter = 0 }
  where
    made : Metrics ℕ
    made = record {
      array = switch ∷ [];
      indices = record {
        name_index = (codes "Node Control/Payload Compression", 0) ∷ [];
        addr_index = [];
        addr_path_index = [];
      };
      alias_index = [];
    }

-- The node after its birth.
abbrev born_node : Node ℕ
born_node = record node {
  alias_counter = 1;
  metrics = record (node.metrics) {
    array = record switch { alias = some 0 } ∷ [];
    alias_index = (0, 0) ∷ [];
  };
}

abbrev options : DeviceOptions ℕ
options = record { device_id = codes "D"; poll_int = 1000; pub_interval = 0; metrics = sensors }

abbrev device : Device ℕ
device = record (new_device c (record options { metrics = [] })) { metrics = of_array sensors }

abbrev written_temp : Write ℕ
written_temp = record { old = some temp; value = number (pos 3) }

abbrev names_of : List (Sent ℕ) → List Text
names_of [] = []
names_of (node_birth ms ∷ out) = codes "NBIRTH" ∷ names_of out
names_of (device_birth id ms v ∷ out) = codes "DBIRTH" ∷ names_of out
names_of (device_data id ms v ∷ out) = codes "DDATA" ∷ names_of out
names_of (device_death id t ∷ out) = codes "DDEATH" ∷ names_of out
names_of (_ ∷ out) = names_of out

abbrev names_in : List (Metric ℕ) → List (Option Text × Option ℕ)
names_in ms = map (λ (m : Metric ℕ). (m.name, m.alias)) ms

abbrev command_of : String → Value ℕ → Command ℕ
command_of n v = record { name = codes n; alias = none; value = v }

abbrev reader : Reader ℕ (Value ℕ)
reader = record {
  is_batched = false;
  raw = λ v. some v;
  parse = λ v m. some v;
  batch = λ v m. [];
  time = λ v. some 5;
  time_ns = λ v. none;
  tags = λ v. none;
}

abbrev same_real : ℕ → ℕ → Bool
same_real a b = a == b

abbrev events : List (Event ℕ)
events =
    connects ∷ settles ∷ ready ∷ changes sensors ∷ disconnects ∷ changes sensors ∷ connects ∷ []

agent_tests : Unit {0}
unfolding nth modify has_get readable_addr path_of index_at index_metric build_from build_indices
    of_array add set_alias get_by_name get_by_alias get_paths_for_addr addr_path get_by_addr_path
    updated set_value_by_index set_value_by_name set_value_by_addr_path normalize_to_nanos
    ns_to_long is_plain plain tidy nanos new_metric prepare_payload set_aliases publish_n_birth
    publish_d_birth publish_d_data publish_d_death now_long handle_n_cmd command default_metrics
    new_device publish_birth birth_published publish_data publish_death device_disconnected
    device_connected subscribe_to_metric_changes publish_buffer stop_metric_subscription
    buffer_or_publish handle handle_all same_value set_changed handle_value handle_path handle_paths
    handle_addrs handle_data command_name command_effect command_writes handle_commands handle_d_cmd
    set_written write_callback
agent_tests =
    let t1 : publish_n_birth lang c node
        ≡ some (
          born_node,
          node_birth (new_metric c true (record switch { alias = some 0 }) ∷ []) ∷ dbirth_all ∷ [],
        ) =
      refl in
    let t2 : names_in (publish_d_birth lang c (codes "D") sensors born_node).1
        ≡ (some (codes "Temp"), some 1) ∷ (some (codes "Level1"), some 2) ∷ [] =
      refl in
    let t3 : names_of (handle_all lang c events (new_device c options) born_node).sent
        ≡ codes "DBIRTH" ∷ codes "DDATA" ∷ codes "DDEATH" ∷ codes "DBIRTH" ∷ [] =
      refl in
    let t4 : names_of
          (handle_data lang same_real reader c true ((codes "t", number (pos 7)) ∷ [])
            (record device { is_alive = true }) born_node).sent
        ≡ codes "DDATA" ∷ [] =
      refl in
    let t5 : (handle_data lang same_real reader c true ((codes "t", null) ∷ []) device
          born_node).sent
        ≡ [] =
      refl in
    let t6 : (handle_commands lang c (command_of "Temp" (number (pos 3)) ∷ []) device
          born_node).writes
        ≡ some (record { old = some temp; value = number (pos 3) } ∷ []) =
      refl in
    let t7 : (handle_d_cmd lang c (record { name = []; alias = some 0; value = null } ∷ []) device
          born_node).1
        ≡ [] =
      refl in
    let t8 : handle_n_cmd lang c
          ((codes "Node Control/Reload Edge Agent Config", none) ∷ ([], some 7) ∷ []) node
        ≡ (node, stopping ∷ []) =
      refl in
    let t9 : names_of
          (write_callback lang c false (record { old = some temp; value = number (pos 3) } ∷ [])
            (record device { is_alive = true }) born_node).sent
        ≡ codes "DDATA" ∷ [] =
      refl in
    tt

abbrev world : World ℕ
world = record { node = node; devices = sensors ∷ [] }

abbrev born_world : World ℕ
born_world = record { node = born_node; devices = sensors ∷ [] }

abbrev device_world : World ℕ
device_world = record {
  node = (publish_d_birth lang c (codes "D") sensors born_node).0;
  devices = (publish_d_birth lang c (codes "D") sensors born_node).1 ∷ [];
}

abbrev node_birth_sent : List (Sent ℕ)
node_birth_sent =
    node_birth (new_metric c true (record switch { alias = some 0 }) ∷ []) ∷ dbirth_all ∷ []

publish_n_birth-Unique_example : Unique (in_use device_world)
unfolding nth modify set_alias normalize_to_nanos ns_to_long is_plain plain tidy nanos new_metric
    prepare_payload set_aliases publish_n_birth
publish_n_birth-Unique_example =
    publish_n_birth-Unique lang c world born_node node_birth_sent device_world ((_, refl), tt) refl
      refl
      (Steps.then_step _ _ _
        (Step.device_born c (codes "D") [] [] sensors born_world device_world refl refl refl)
        (Steps.done device_world))

-- A device whose connection opens after the node has been born a second time.
publish_d_birth-publish_n_birth_example :
    In 0 (aliases born_node.metrics.array)
    × (rs : List (Metric ℕ)) × (aliases
          (publish_d_birth lang c (codes "D") sensors (record born_node { alias_counter = 0 })).1
        ≡ 0 ∷ aliases rs)
unfolding nth modify set_alias normalize_to_nanos ns_to_long is_plain plain tidy nanos new_metric
    prepare_payload set_aliases publish_n_birth
publish_d_birth-publish_n_birth_example =
    publish_d_birth-publish_n_birth lang c born_node (record born_node { alias_counter = 0 })
      node_birth_sent (codes "D") temp (level ∷ []) ((_, refl), tt) ((0, refl), tt) refl (inl refl)
      refl (_, refl) refl

handle_all-InOrder_example : Sound false (handle_all lang c events (new_device c options) born_node)
unfolding new_device get_by_name nth AllWait handle device_connected publish_birth birth_published
    subscribe_to_metric_changes buffer_or_publish publish_data publish_d_birth
handle_all-InOrder_example =
    handle_all-InOrder lang c events false (new_device c options) born_node
      (tt, (tt, (tt, (tt, (refl, (tt, (tt, tt))))))) (refl, λ e. (refl, refl)) (refl, _, refl)

abbrev once : Changed ℕ
once =
    handle_value lang same_real reader c (codes "t") [] null (some (number (pos 7))) level
      (of_array sensors)

abbrev full : Metric ℕ
full = updated c (number (pos 7)) (some 5) none level

handle_value-handle_value_example :
    handle_value lang same_real reader c
      (codes "t")
      []
      null
      (some (number (pos 7)))
      full
      once.metrics
    ≡ unchanged lang same_real reader c once.metrics
unfolding nth modify has_get readable_addr path_of index_at index_metric build_from build_indices
    of_array addr_path get_by_addr_path set_value_by_index set_value_by_addr_path same_value
    set_changed handle_value
handle_value-handle_value_example =
    handle_value-handle_value lang same_real reader c (codes "t") [] null (number (pos 7)) level
      full (of_array sensors) refl refl refl

handle_commands-handle_all_example :
    (handle_commands lang c
      ((command_of "Temp" (number (pos 3)) ∷ [])
        ++ (record { name = []; alias = some 1; value = number (pos 3) } ∷ []))
      (handle_all lang c events (new_device c options) born_node).device
      born_node).writes
    ≡ none
handle_commands-handle_all_example =
    handle_commands-handle_all lang c options events (command_of "Temp" (number (pos 3)) ∷ []) []
      (record { name = []; alias = some 1; value = number (pos 3) }) born_node born_node refl

write_callback-handle_d_cmd_example :
    ((handle_d_cmd lang c (command_of "Temp" (number (pos 3)) ∷ []) device born_node).1
      ≡ written_temp ∷ [])
    × (y : Metrics ℕ) × (set_written c (written_temp ∷ []) device.metrics
        ≡ (y, some (codes "Temp" ∷ [])))
    × (get_by_name (codes "Temp") y ≡ some (updated c (number (pos 3)) none none temp))
    × Published lang c device born_node
        (updated c (number (pos 3)) none none temp)
        y
        (write_callback lang c false (written_temp ∷ []) device born_node).sent
    × (write_callback lang c true (written_temp ∷ []) device born_node ≡ idle device born_node)
unfolding nth readable_addr path_of has_get index_at index_metric build_from build_indices of_array
    get_by_name
write_callback-handle_d_cmd_example =
    write_callback-handle_d_cmd lang c b'T' (codes "emp") (command_of "Temp" (number (pos 3))) temp
      device born_node refl refl refl refl
