-- ===== src/EdgeAgent/Tests.antt =====
-- Runs of the Edge Agent's metrics and buffers, and its theorems at concrete inputs.
pub mod Agent
use mathlib.Core.List.{map}
use amrc_connectivity_stack.Prelude.{
  All, length, String, ℕ, zero, suc, ◌%◌, ◌*◌, ◌≡◌, ◌≢◌, ◌↔◌, ◌≤◌, ◌<◌, ◌⊎◌, refl, inl, inr, ℤ, pos,
  negsuc, Bool, true, false, List, [], ◌∷◌, ◌++◌, Option, none, some, arith, ◌==◌, nat_eq, list_eq,
  if◌then◌else◌, or_else, In, flat_map, filter, lookup,
}
use amrc_connectivity_stack.Text.{Text, codes}
use amrc_connectivity_stack.EdgeAgent.Types.{
  DataType, Value, Metric, Properties, no_properties, little_endian, big_endian,
}
use amrc_connectivity_stack.EdgeAgent.Types.DataType.{
  boolean, int8, int16, int32, uint16, string, double, uint64,
}
use amrc_connectivity_stack.EdgeAgent.Types.Value.{number, real, bigint, str, bool, null}
use amrc_connectivity_stack.EdgeAgent.Bytes.Laws.{IsByte}
use amrc_connectivity_stack.EdgeAgent.Bytes.{
  IntKind, read_kind, write_kind, patterns, to_bytes, from_bytes, ordered, drop, take, take_exactly,
  byte_at, read_bytes, test_bit, in_range,
}
use amrc_connectivity_stack.EdgeAgent.Buffer.{
  Num, whole, other, Language, Parsed, parsed, throws, undefined, parse_other, int_value,
  parse_val_from_buffer, write_int, write_other, write_bytes, write_order, write_val_to_buffer,
  type_lens,
}
use amrc_connectivity_stack.EdgeAgent.Buffer.RoundTrip.{
  whole_value, parse_val_from_buffer-write_val_to_buffer,
}
use amrc_connectivity_stack.EdgeAgent.Buffer.Bounds.{parse_val_from_buffer_bound}
use amrc_connectivity_stack.EdgeAgent.Buffer.Ranges.{TypeRange, Between, ranged}
use amrc_connectivity_stack.EdgeAgent.Metrics.{
  Metrics, Clock, Indices, nth, modify, has_get, readable_addr, path_of, index_at, index_metric,
  build_from, build_indices, of_array, add, set_alias, addresses, get_by_name, get_by_alias,
  get_by_address, get_paths_for_addr, addr_path, get_by_addr_path, updated, set_value_by_index,
  set_value_by_name, set_value_by_alias, set_value_by_addr_path,
}
use amrc_connectivity_stack.EdgeAgent.Metrics.Building.{find_last, named, read_at}
use amrc_connectivity_stack.EdgeAgent.Metrics.Lookup.{Made}
use amrc_connectivity_stack.EdgeAgent.Metrics.Finding.{
  get_by_name-find_last, get_by_addr_path-get_paths_for_addr,
  get_by_addr_path-set_value_by_addr_path,
}
use amrc_connectivity_stack.EdgeAgent.Metrics.Addresses.{twice, read_from}
use amrc_connectivity_stack.EdgeAgent.Payload.{
  normalize_to_nanos, ns_to_long, plain, is_plain, tidy, nanos, new_metric, Prepared,
  prepare_payload,
}
use amrc_connectivity_stack.EdgeAgent.Payload.Times.{ns_to_long-normalize_to_nanos}
use amrc_connectivity_stack.EdgeAgent.Node.{
  Node, Sent, node_birth, device_birth, device_data, device_death, dbirth_all, stopping,
  set_aliases, publish_n_birth, publish_d_birth, publish_d_data, publish_d_death, now_long,
  handle_n_cmd, command,
}
use amrc_connectivity_stack.EdgeAgent.Node.Session.{
  World, Steps, Step, in_use, publish_n_birth-Unique,
}
use amrc_connectivity_stack.EdgeAgent.Node.Rebirth.{publish_d_birth-publish_n_birth}
use amrc_connectivity_stack.EdgeAgent.Payload.Aliases.{Unique, aliases}
use amrc_connectivity_stack.EdgeAgent.Device.{
  Device, DeviceOptions, Effect, default_metrics, new_device, publish_birth, publish_data,
  publish_death, device_disconnected, device_connected, subscribe_to_metric_changes, publish_buffer,
  stop_metric_subscription, buffer_or_publish,
}
use amrc_connectivity_stack.EdgeAgent.Device.Readings.{
  Reader, Changed, same_value, unchanged, set_changed, handle_value, handle_path, handle_paths,
  handle_addrs, handle_data,
}
use amrc_connectivity_stack.EdgeAgent.Device.Life.{
  Event, connects, disconnects, ready, ticks, stops, birth_asked, changes, handle, handle_all,
  Sound,
}
use amrc_connectivity_stack.EdgeAgent.Device.Changes.{handle_value-handle_value}
use amrc_connectivity_stack.EdgeAgent.Device.Commands.{
  Command, Write, Commanded, number_of_long, is_control, command_name, command_effect,
  command_writes, handle_commands, handle_d_cmd, set_written, write_callback,
}
use amrc_connectivity_stack.EdgeAgent.Device.Commands.Unnamed.{handle_commands-handle_all}

-- Whole numbers only: nothing else is a number.
abbrev pub lang : Language ℕ
lang = record {
  within = λ a b x. false;
  trunc = λ x. pos x;
  is_nonzero = λ x. true;
  number_of = λ t. other 0;
  show = λ v. codes "?";
  double = λ n. whole n;
  utf8 = λ t. t;
  from_utf8 = λ bs. bs;
  float32 = λ x. to_bytes 4 0;
  float64 = λ x. to_bytes 8 0;
  from_float32 = λ bs. other 0;
  from_float64 = λ bs. other 0;
}

abbrev pub at_addr : String → String → Option Properties
at_addr a p = some (record no_properties {
  method = some (codes "GET");
  address = some (codes a);
  path = some (codes p);
})

abbrev pub metric : String → DataType → Value ℕ → Option Properties → Metric ℕ
metric n t v p = record {
  name = some (codes n);
  type = t;
  value = v;
  alias = none;
  is_transient = none;
  is_null = false;
  timestamp = none;
  timestamp_ns = none;
  properties = p;
}

abbrev pub c : Clock
c = record { ms = 1700000000000; ns = 1700000000000000000 }

abbrev pub temp : Metric ℕ
temp = metric "Temp" int16 (number (negsuc 1)) (at_addr "t" "$.v")

abbrev pub level : Metric ℕ
level = metric "Level.1" uint16 (number (pos 300)) (at_addr "t" "")

abbrev pub sensors : List (Metric ℕ)
sensors = temp ∷ level ∷ []

abbrev pub i16 : IntKind
i16 = record { size = 2; signed = true; big = false }

buffer_tests : Unit {0}
unfolding read_kind write_kind patterns to_bytes from_bytes ordered drop take take_exactly byte_at
    read_bytes in_range parse_other int_value parse_val_from_buffer write_int write_other
    write_bytes write_val_to_buffer type_lens
buffer_tests =
    let t1 : write_val_to_buffer lang (9 ∷ []) temp ≡ 255 ∷ 254 ∷ [] = refl in
    let t2 : write_val_to_buffer lang (9 ∷ []) level ≡ 1 ∷ 44 ∷ [] = refl in
    let t3 : parse_val_from_buffer lang int16 little_endian 1 (0 ∷ 254 ∷ 255 ∷ []) none
        ≡ parsed (number (negsuc 1)) =
      refl in
    let t4 : parse_val_from_buffer lang int16 big_endian 2 (0 ∷ 254 ∷ 255 ∷ []) none ≡ throws =
      refl in
    let t5 : parse_val_from_buffer lang boolean 0 0 (4 ∷ []) (some 2) ≡ parsed (bool true) = refl in
    let t6 : write_val_to_buffer lang (9 ∷ []) (record temp { value = number (pos 40000) })
        ≡ 9 ∷ [] =
      refl in
    let t7 : type_lens uint64 ≡ none = refl in tt

metrics_tests : Unit {0}
unfolding nth modify has_get readable_addr path_of index_at index_metric build_from build_indices
    of_array add set_alias addresses get_by_name get_by_alias get_by_address get_paths_for_addr
    addr_path get_by_addr_path updated set_value_by_index set_value_by_name
metrics_tests =
    let x : Metrics ℕ = add (level ∷ []) (of_array (temp ∷ [])) in
    let t1 : get_by_name (codes "Temp") x ≡ some temp = refl in
    let t2 : get_by_addr_path (codes "t") [] x ≡ some level = refl in
    let t3 : get_paths_for_addr (codes "t") x ≡ codes "$.v" ∷ [] ∷ [] = refl in
    -- `add` indexes what was there again.
    let t4 : get_by_address (codes "t") x
        ≡ some (some temp ∷ some temp ∷ some temp ∷ some temp ∷ some level ∷ some level ∷ []) =
      refl in
    let t5 : get_by_name (codes "Tem") x ≡ none = refl in tt

parse_val_from_buffer-write_val_to_buffer_example :
    parse_val_from_buffer lang int16
      (write_order temp.properties)
      2
      (7 ∷ 7 ∷ [] ++ (write_val_to_buffer lang [] temp ++ (8 ∷ [])))
      none
    ≡ parsed (number (negsuc 1))
unfolding read_kind write_kind in_range patterns
parse_val_from_buffer-write_val_to_buffer_example =
    parse_val_from_buffer-write_val_to_buffer lang [] (7 ∷ 7 ∷ []) (8 ∷ []) none temp i16 (negsuc 1)
      refl refl refl

abbrev range16 : TypeRange
range16 = record { least = negsuc 32767; greatest = pos 32767; big = false }

parse_val_from_buffer_bound_example :
    ((addr : ℕ) (buf : List ℕ)
      → All IsByte buf
      → (parse_val_from_buffer lang int16 0 addr buf none ≡ throws)
        ⊎ ((n : ℤ) × (parse_val_from_buffer lang int16 0 addr buf none ≡ parsed (ranged range16 n))
            × Between range16 n))
    × ((n : ℤ) (pre post : List ℕ)
        → Between range16 n
        → (bs : List ℕ) × (parse_val_from_buffer lang int16 0
              (length pre)
              (pre ++ (bs ++ post))
              none
            ≡ parsed (ranged range16 n)))
parse_val_from_buffer_bound_example = parse_val_from_buffer_bound lang int16 range16 0 none refl

abbrev made_sensors : Made (of_array sensors)
made_sensors = Made.made sensors (of_array sensors) refl

get_by_name-find_last_example :
    (get_by_name (codes "Temp") (of_array sensors)
      ≡ find_last (named (codes "Temp")) (of_array sensors).array)
    × (get_by_addr_path (codes "t") [] (of_array sensors)
        ≡ find_last (read_at (codes "t") []) (of_array sensors).array)
get_by_name-find_last_example =
    get_by_name-find_last (of_array sensors) (codes "Temp") (codes "t") [] made_sensors

get_by_addr_path-get_paths_for_addr_example :
    (m : Metric ℕ) × (get_by_addr_path (codes "t") [] (of_array sensors) ≡ some m)
    × (read_at (codes "t") [] m ≡ true)
unfolding has_get readable_addr path_of index_at index_metric build_from build_indices of_array
    get_paths_for_addr
get_by_addr_path-get_paths_for_addr_example =
    get_by_addr_path-get_paths_for_addr (of_array sensors) (codes "t") [] made_sensors
      (inr (inl refl))

-- The metrics after the temperature has become 7.
abbrev warmer : Metrics ℕ
warmer = record x { array = updated c (number (pos 7)) none none temp ∷ level ∷ [] }
  where
    x : Metrics ℕ
    x = of_array sensors

get_by_addr_path-set_value_by_addr_path_example :
    (i : ℕ) × (m : Metric ℕ) × (nth i (of_array sensors).array ≡ some m)
    × (get_by_addr_path (codes "t") (codes "$.v") (of_array sensors) ≡ some m)
    × (get_by_addr_path (codes "t") (codes "$.v") warmer
        ≡ some (updated c (number (pos 7)) none none m))
    × ((j : ℕ) → i ≢ j → nth j warmer.array ≡ nth j (of_array sensors).array)
unfolding nth modify has_get readable_addr path_of index_at index_metric build_from build_indices
    of_array addr_path set_value_by_index set_value_by_addr_path
get_by_addr_path-set_value_by_addr_path_example =
    get_by_addr_path-set_value_by_addr_path c (codes "t") (codes "$.v") (number (pos 7)) none none
      (of_array sensors) warmer refl

ns_to_long-normalize_to_nanos_example :
    (ns_to_long (normalize_to_nanos 1700000000000) ≡ normalize_to_nanos 1700000000000) ↔ (
      (1700000000000 ≤ 18446744073709)
      ⊎ ((1000000000000000 ≤ 1700000000000) × (1700000000000 < 18446744073709551616)))
ns_to_long-normalize_to_nanos_example = ns_to_long-normalize_to_nanos 1700000000000
