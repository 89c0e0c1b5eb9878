-- ===== src/EdgeAgent/Device.antt =====
-- The class `Device` (acs-edge/lib/device.ts): its connection, its births and deaths, and the buffer of
-- its data. The promise of a birth that is awaited is counted, and its `then` is a step of its own.
pub mod Readings
pub mod Commands
pub mod Life
pub mod Changes
use amrc_connectivity_stack.Prelude.{
  ℕ, zero, suc, pos, Bool, true, false, List, [], ◌∷◌, ◌++◌, Option, none, some, if◌then◌else◌, ltb,
  or_else, ◌-◌, ◌==◌, nat_eq,
}
use amrc_connectivity_stack.Text.{Text, codes}
use amrc_connectivity_stack.EdgeAgent.Types.{DataType, Value, Metric, Properties, no_properties}
use amrc_connectivity_stack.EdgeAgent.Types.DataType.{boolean, uint16}
use amrc_connectivity_stack.EdgeAgent.Types.Value.{number, bool}
use amrc_connectivity_stack.EdgeAgent.Buffer.{Language}
use amrc_connectivity_stack.EdgeAgent.Metrics.{Metrics, Clock, of_array, add}
use amrc_connectivity_stack.EdgeAgent.Node.{
  Node, Sent, publish_d_birth, publish_d_data, publish_d_death,
}

pub record Device (F : Type 0) : Type 0 where
  pub name : Text
  pub metrics : Metrics F
  pub is_alive : Bool
  pub is_connected : Bool
  pub births : ℕ
  pub pub_interval : ℕ
  pub pub_timer : Bool
  pub pub_buffer : List (Metric F)

-- The device and the node after a step, and what was published.
pub record Effect (F : Type 0) : Type 0 where
  pub device : Device F
  pub node : Node F
  pub sent : List (Sent F)

pub record DeviceOptions (F : Type 0) : Type 0 where
  pub device_id : Text
  pub poll_int : ℕ
  pub pub_interval : ℕ
  pub metrics : List (Metric F)

-- The names of the default metrics.
abbrev pub polling_interval : Text
polling_interval = codes "Device Control/Polling Interval"

abbrev pub publish_interval : Text
publish_interval = codes "Device Control/Publish Interval"

abbrev pub reboot : Text
reboot = codes "Device Control/Reboot"

abbrev pub device_rebirth : Text
device_rebirth = codes "Device Control/Rebirth"

-- The properties of a default metric, `rest` for those that name it and its unit.
abbrev default_properties : ℕ → Properties
default_properties k = record no_properties {
  method = some [];
  address = some [];
  path = some [];
  rest = k;
}

module _ {F : Type 0} where
  abbrev default_metric : Clock → Text → DataType → Value F → ℕ → Metric F
  default_metric c n t v k = record {
    name = some n;
    type = t;
    value = v;
    alias = none;
    is_transient = some true;
    is_null = false;
    timestamp = some c.ms;
    timestamp_ns = none;
    properties = some (default_properties k);
  }

  unfoldable pub default_metrics : Clock → DeviceOptions F → List (Metric F)
  default_metrics c o =
      default_metric c polling_interval uint16 (number (pos o.poll_int)) 1
      ∷ default_metric c publish_interval uint16 (number (pos o.pub_interval)) 2
      ∷ default_metric c reboot boolean (bool false) 3
      ∷ default_metric c device_rebirth boolean (bool false) 4
      ∷ []

  -- The constructor, with no templates
  unfoldable pub new_device : Clock → DeviceOptions F → Device F
  new_device c o = record {
    name = o.device_id;
    metrics = add o.metrics (of_array (default_metrics c o));
    is_alive = false;
    is_connected = false;
    births = 0;
    pub_interval = o.pub_interval;
    pub_timer = false;
    pub_buffer = [];
  }

  -- `_publishDBirth`, which never reads first, up to its `then`
  unfoldable pub publish_birth : Language F → Clock → Device F → Node F → Effect F
  publish_birth lang c d s =
      let r = publish_d_birth lang c d.name d.metrics.array s in
      if d.is_connected
      then record {
        device = record d { metrics = record (d.metrics) { array = r.1 }; births = suc d.births };
        node = r.0;
        sent = r.2;
      }
      else record { device = d; node = s; sent = [] }

  -- The `then` of `_publishDBirth`, while a birth is awaited
  unfoldable pub birth_published : Device F → Device F
  birth_published d =
      if d.births == 0 then d else record d { births = d.births - 1; is_alive = true }

  -- `_publishDData` with metrics that are copies; a device that is not alive is born instead.
  unfoldable pub publish_data : Language F → Clock → List (Metric F) → Device F → Node F → Effect F
  publish_data lang c ms d s =
      if d.is_alive
      then record { device = d; node = s; sent = (publish_d_data lang c d.name ms s).1 }
      else publish_birth lang c d s

  -- `#publishDDeath`
  unfoldable pub publish_death : Clock → Device F → Node F → Effect F
  publish_death c d s =
      if d.is_connected
      then record {
        device = record d { is_alive = false };
        node = s;
        sent = publish_d_death c d.name;
      }
      else record { device = d; node = s; sent = [] }

  unfoldable pub device_disconnected : Clock → Device F → Node F → Effect F
  device_disconnected c d s =
      let e = publish_death c d s in
      record e { device = record (e.device) { is_connected = false } }

  unfoldable pub device_connected : Language F → Clock → Device F → Node F → Effect F
  device_connected lang c d s = publish_birth lang c (record d { is_connected = true }) s

  -- `#subscribeToMetricChanges`, of which the timer is kept, and the callback of
  -- `_stopMetricSubscription`.
  unfoldable pub subscribe_to_metric_changes : Device F → Device F
  subscribe_to_metric_changes d = record d {
    pub_timer = if ltb 0 d.pub_interval then true else d.pub_timer;
  }

  unfoldable pub publish_buffer : Language F → Clock → Device F → Node F → Effect F
  publish_buffer lang c d s =
      let e = publish_data lang c d.pub_buffer d s in
      record e { device = record (e.device) { pub_buffer = [] } }

  unfoldable pub stop_metric_subscription : Language F → Clock → Device F → Node F → Effect F
  stop_metric_subscription lang c d s =
      if d.pub_timer
      then publish_buffer lang c (record d { pub_timer = false }) s
      else record { device = d; node = s; sent = [] }

  unfoldable pub buffer_or_publish :
      Language F → Clock → List (Metric F) → Device F → Node F → Effect F
  buffer_or_publish lang c ms d s =
      if d.pub_timer
      then record { device = record d { pub_buffer = d.pub_buffer ++ ms }; node = s; sent = [] }
      else publish_data lang c ms d s
