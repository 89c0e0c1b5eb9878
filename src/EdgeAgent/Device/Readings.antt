-- ===== src/EdgeAgent/Device/Readings.antt =====
-- What a device does with data from its connection (acs-edge/lib/device.ts, `_handleData`).
use amrc_connectivity_stack.Prelude.{
  ℕ, ℤ, pos, negsuc, Bool, true, false, not, ◌&&◌, ◌||◌, List, [], ◌∷◌, ◌++◌, Option, none, some,
  if◌then◌else◌, ◌==◌, nat_eq, list_eq, or_else,
}
use amrc_connectivity_stack.Text.{Text}
use amrc_connectivity_stack.EdgeAgent.Types.{Value, Metric, no_properties}
use amrc_connectivity_stack.EdgeAgent.Types.Value.{number, real, bigint, long, str, bool, null}
use amrc_connectivity_stack.EdgeAgent.Buffer.{Language}
use amrc_connectivity_stack.EdgeAgent.Metrics.{
  Metrics, Clock, starts_get, given, path_of, get_paths_for_addr, get_by_addr_path,
  set_value_by_addr_path,
}
use amrc_connectivity_stack.EdgeAgent.Node.{Node}
use amrc_connectivity_stack.EdgeAgent.Device.{Device, Effect, buffer_or_publish}

-- How a payload `P` of the connection is read: `raw` if it is a value already, `parse` with the format
-- of the device, `batch` if that is JSON (Batched). A value that is undefined is `none`. `tags` gives
-- the run of a simulated payload.
pub record Reader (F P : Type 0) : Type 0 where
  pub is_batched : Bool
  pub raw : P → Option (Value F)
  pub parse : P → Metric F → Option (Value F)
  pub batch : P → Metric F → List (Option (Value F) × Option ℕ)
  pub time : P → Option ℕ
  pub time_ns : P → Option ℕ
  pub tags : P → Option (Option Text)

-- A bigint becomes a `Long`.
abbrev pub to_long : {F : Type 0} → Value F → Value F
to_long (bigint n) = long n
to_long v = v

abbrev same_ℤ : ℤ → ℤ → Bool
same_ℤ (pos a) (pos b) = a == b
same_ℤ (negsuc a) (negsuc b) = a == b
same_ℤ _ _ = false

-- `===`, where two `Long`s are never the same object.
unfoldable pub same_value : {F : Type 0} → (F → F → Bool) → Value F → Value F → Bool
same_value f (number a) (number b) = same_ℤ a b
same_value f (real a) (real b) = f a b
same_value f (bigint a) (bigint b) = same_ℤ a b
same_value f (str a) (str b) = a == b
same_value f (bool true) (bool b) = b
same_value f (bool false) (bool b) = not b
same_value f null null = true
same_value f _ _ = false

-- `value || value == 0`, and `value || value === 0`.
abbrev pub is_sensible : {F : Type 0} → Language F → Value F → Bool
is_sensible lang (real x) = lang.is_nonzero x
is_sensible lang null = false
is_sensible lang _ = true

abbrev pub is_sensible_strictly : {F : Type 0} → Language F → Value F → Bool
is_sensible_strictly lang (str []) = false
is_sensible_strictly lang (bool b) = b
is_sensible_strictly lang v = is_sensible lang v

-- The markers of a simulated payload on a copy of a metric.
abbrev pub tagged : {F : Type 0} → Option (Option Text) → Metric F → Metric F
tagged none m = m
tagged (some run) m =
    let p = or_else m.properties no_properties in
    record m {
      properties = some (record p {
        simulated = some true;
        run_id = elim run [ none ↦ p.run_id | some r ↦ if r == [] then p.run_id else some r ];
      });
    }

-- The metrics of a device, and the copies of those that changed.
pub record Changed (F : Type 0) : Type 0 where
  pub metrics : Metrics F
  pub copies : List (Metric F)

module _ {F : Type 0} where
  abbrev pub value_at : Text → Text → Metrics F → Value F
  value_at a p x = elim (get_by_addr_path a p x) [ none ↦ null | some m ↦ m.value ]

  abbrev method_of : Metric F → Text
  method_of m = elim m.properties as (λ _. Text) [ none ↦ [] | some q ↦ or_else q.method [] ]

  -- The metric takes its value from data that are parsed or not, and have one address or more.
  abbrev pub is_read : Bool → Bool → Metric F → Bool
  is_read parse_vals single m =
      starts_get (method_of m) && (not parse_vals || not (path_of m == []) || single)

module _ {F P : Type 0} (lang : Language F) (same_real : F → F → Bool) (reader : Reader F P)
    (c : Clock) where
  abbrev pub unchanged : Metrics F → Changed F
  unchanged x = record { metrics = x; copies = [] }

  -- A new value of the metric at an address and a path, and the copy of the metric then.
  unfoldable pub set_changed :
      Text → Text → Value F → Option ℕ → Option ℕ → Option (Option Text) → Metrics F → Changed F
  set_changed a p v t tns run x = elim (set_value_by_addr_path c a p v t tns x) [
    | none ↦ unchanged x
    | some y ↦ record {
      metrics = y;
      copies = elim (get_by_addr_path a p y) [ none ↦ [] | some m ↦ tagged run m ∷ [] ];
    }
  ]

  unfoldable pub handle_value :
      Text → Text → P → Option (Value F) → Metric F → Metrics F → Changed F
  handle_value a p msg none m x = unchanged x
  handle_value a p msg (some v) m x =
      if is_sensible lang v && not (same_value same_real m.value v)
      then set_changed a p v (reader.time msg) (reader.time_ns msg) (reader.tags msg) x
      else unchanged x

  -- One value of a batch; the metric is the object that each of them changes.
  unfoldable pub batch_value : Text → Text → Value F → Option ℕ → Metrics F → Changed F
  batch_value a p w t x =
      if is_sensible_strictly lang (to_long w)
        && not (same_value same_real (value_at a p x) (to_long w))
      then set_changed a p (to_long w) (if given t then t else some c.ms) none none x
      else unchanged x

  unfoldable pub handle_batch :
      Text → Text → List (Option (Value F) × Option ℕ) → Metrics F → Changed F
  handle_batch a p [] x = unchanged x
  handle_batch a p ((none, t) ∷ vs) x = handle_batch a p vs x
  handle_batch a p ((some w, t) ∷ vs) x =
      let r = batch_value a p w t x in
      let rest = handle_batch a p vs r.metrics in record rest { copies = r.copies ++ rest.copies }

  abbrev long_option : Option (Value F) → Option (Value F)
  long_option none = none
  long_option (some v) = some (to_long v)

  abbrev pub read_value : Bool → P → Metric F → Option (Value F)
  read_value parse_vals msg m =
      long_option (if parse_vals then reader.parse msg m else reader.raw msg)

  -- One path of an address; `single` says that the data have one address only.
  unfoldable pub handle_path : Bool → Bool → Text → P → Text → Metrics F → Changed F
  handle_path parse_vals single a msg p x = elim (get_by_addr_path a p x) [
    | none ↦ unchanged x
    | some m ↦
        if is_read parse_vals single m
        then if parse_vals && reader.is_batched
          then handle_batch a p (reader.batch msg m) x
          else handle_value a p msg (read_value parse_vals msg m) m x
        else unchanged x
  ]

  unfoldable pub handle_paths : Bool → Bool → Text → P → List Text → Metrics F → Changed F
  handle_paths parse_vals single a msg [] x = unchanged x
  handle_paths parse_vals single a msg (p ∷ ps) x =
      let r = handle_path parse_vals single a msg p x in
      let rest = handle_paths parse_vals single a msg ps r.metrics in
      record rest { copies = r.copies ++ rest.copies }

  unfoldable pub handle_addrs : Bool → Bool → List (Text × P) → Metrics F → Changed F
  handle_addrs parse_vals single [] x = unchanged x
  handle_addrs parse_vals single ((a, msg) ∷ obj) x =
      let r = handle_paths parse_vals single a msg (get_paths_for_addr a x) x in
      let rest = handle_addrs parse_vals single obj r.metrics in
      record rest { copies = r.copies ++ rest.copies }

  abbrev is_single : List (Text × P) → Bool
  is_single (e ∷ []) = true
  is_single _ = false

  unfoldable pub handle_data : Bool → List (Text × P) → Device F → Node F → Effect F
  handle_data parse_vals obj d s =
      let r = handle_addrs parse_vals (is_single obj) obj d.metrics in
      let t = record d { metrics = r.metrics } in
      elim r.copies [
        | [] ↦ record { device = t; node = s; sent = [] }
        | m ∷ ms ↦ buffer_or_publish lang c (m ∷ ms) t s
      ]
