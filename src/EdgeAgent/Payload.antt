-- ===== src/EdgeAgent/Payload.antt =====
-- The metrics of a Sparkplug payload (acs-edge/lib/sparkplugNode.ts, `#preparePayload`).
pub mod Times
pub mod Aliases
use amrc_connectivity_stack.Prelude.{
  ℕ, suc, ◌+◌, ◌*◌, ◌%◌, ◌^◌, Bool, true, false, not, ◌&&◌, ◌||◌, List, [], ◌∷◌, ◌++◌, Option, none,
  some, if◌then◌else◌, ltb, leb, ◌==◌, nat_eq, or_else, filter, has,
}
use amrc_connectivity_stack.Text.{Text, codes}
use amrc_connectivity_stack.EdgeAgent.Types.{DataType, Value, Metric, Properties, no_properties}
use amrc_connectivity_stack.EdgeAgent.Types.DataType.{string}
use amrc_connectivity_stack.EdgeAgent.Types.Value.{str, null}
use amrc_connectivity_stack.EdgeAgent.Buffer.{Language, text_of}
use amrc_connectivity_stack.EdgeAgent.Metrics.{Clock}

-- `NS_THRESHOLD` and `MS_TO_NS`
abbrev pub ns_threshold : ℕ
ns_threshold = 1000000000000000

abbrev pub ms_to_ns : ℕ
ms_to_ns = 1000000

unfoldable pub normalize_to_nanos : ℕ → ℕ
normalize_to_nanos n = if ltb n ns_threshold then n * ms_to_ns else n

-- `Long.fromString` of an unsigned number keeps 64 bits.
unfoldable pub ns_to_long : ℕ → ℕ
ns_to_long ns = ns % 2 ^ 64

-- `\w` and `\s` of a regular expression.
abbrev pub is_word : ℕ → Bool
is_word c =
    (leb b'A' c && leb c b'Z')
    || (leb b'a' c && leb c b'z')
    || (leb b'0' c && leb c b'9')
    || c == b'_'

abbrev pub spaces : List ℕ
spaces = 32 ∷ 160 ∷ 5760 ∷ 8232 ∷ 8233 ∷ 8239 ∷ 8287 ∷ 12288 ∷ 65279 ∷ []

abbrev pub is_space : ℕ → Bool
is_space c = (leb 9 c && leb c 13) || (leb 8192 c && leb c 8202) || has c spaces

-- What stays of a name.
unfoldable pub is_plain : ℕ → Bool
is_plain c = is_word c || is_space c || has c (b'\'' ∷ b'-' ∷ b':' ∷ b'(' ∷ b')' ∷ b'/' ∷ [])

unfoldable pub plain : Text → Text
plain n = filter is_plain n

-- The simulated-data markers, the only properties that go with data.
abbrev pub markers : Option Properties → Option Properties
markers none = none
markers (some p) = elim p.simulated [
  | none ↦ none
  | some s ↦ some (record no_properties { simulated = some s; run_id = p.run_id })
]

-- The alias counter, the metrics as they are left, and those of the payload.
pub record Prepared (F : Type 0) : Type 0 where
  pub counter : ℕ
  pub metrics : List (Metric F)
  pub payload : List (Metric F)

module _ {F : Type 0} where
  -- An empty string becomes null.
  abbrev pub nulled : Value F → Metric F → Metric F
  nulled (str []) m = record m { value = null; is_null = true }
  nulled _ m = m

  -- What `#preparePayload` changes in a metric that has a name, but for its alias.
  unfoldable pub tidy : Language F → Text → Metric F → Metric F
  tidy lang n m =
      let v = elim m.type as (λ _. Value F) [ string ↦ str (text_of lang m.value) | _ ↦ m.value ] in
      nulled v (record m { name = some (plain n); value = v })

  unfoldable pub nanos : Clock → Metric F → ℕ
  nanos c m = or_else m.timestamp_ns (normalize_to_nanos (or_else m.timestamp c.ms))

  -- The metric of a payload; a birth gives the name and the properties.
  unfoldable pub new_metric : Clock → Bool → Metric F → Metric F
  new_metric c birth m = record {
    name = if birth then m.name else none;
    type = m.type;
    value = m.value;
    alias = m.alias;
    is_transient = some (or_else m.is_transient false);
    is_null = false;
    timestamp = some (ns_to_long (nanos c m));
    timestamp_ns = some (nanos c m);
    properties = if birth then m.properties else markers m.properties;
  }

  -- An alias for a metric of a birth that has none, by `requestAlias`.
  abbrev pub give_alias : Option ℕ → ℕ → Metric F → ℕ × Metric F
  give_alias none k m = (suc k, record m { alias = some k })
  give_alias (some a) k m = (k, m)

  abbrev pub aliased : Bool → ℕ → Metric F → ℕ × Metric F
  aliased false k m = (k, m)
  aliased true k m = give_alias m.alias k m

  -- The counter and a metric after its turn, and what it adds to the payload: one with no name is
  -- passed over.
  abbrev pub prepare_named : Language F → Bool → ℕ → Metric F → Option Text → ℕ × Metric F
  prepare_named lang birth k m none = (k, m)
  prepare_named lang birth k m (some n) = aliased birth k (tidy lang n m)

  abbrev pub prepare_metric : Language F → Bool → ℕ → Metric F → ℕ × Metric F
  prepare_metric lang birth k m = prepare_named lang birth k m m.name

  abbrev pub payload_named : Clock → Bool → Metric F → Option Text → List (Metric F)
  payload_named c birth m none = []
  payload_named c birth m (some n) = new_metric c birth m ∷ []

  abbrev pub payload_of : Clock → Bool → Metric F → List (Metric F)
  payload_of c birth m = payload_named c birth m m.name

  -- `#preparePayload`
  unfoldable pub prepare_payload : Language F → Clock → Bool → ℕ → List (Metric F) → Prepared F
  prepare_payload lang c birth k [] = record { counter = k; metrics = []; payload = [] }
  prepare_payload lang c birth k (m ∷ ms) =
      let s = prepare_metric lang birth k m in
      let r = prepare_payload lang c birth (s.0) ms in
      record {
        counter = r.counter;
        metrics = s.1 ∷ r.metrics;
        payload = payload_of c birth (s.1) ++ r.payload;
      }
