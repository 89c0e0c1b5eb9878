-- ===== src/EdgeAgent/Types.antt =====
-- Sparkplug types, values and metrics (acs-edge/lib/helpers/typeHandler.ts).
use amrc_connectivity_stack.Prelude.{ℕ, ℤ, Bool, Option, none}
use amrc_connectivity_stack.Text.{Text}

pub data DataType : Type 0 where
  boolean int8 int16 int32 int64 uint8 uint16 uint32 uint64 float double date_time string text
        uuid :
      DataType
  data_set bytes file template property_set property_set_list : DataType

-- Values of metrics: whole numbers, other numbers (`F`), bigints, the library's `Long`, strings,
-- Booleans and null.
pub data Value (F : Type 0) : Type 0 where
  number : ℤ → Value F
  real : F → Value F
  bigint : ℤ → Value F
  long : ℤ → Value F
  str : Text → Value F
  bool : Bool → Value F
  null : Value F

-- `ByteOrder`, by its numbers.
abbrev pub little_endian : ℕ
little_endian = 1234

abbrev pub big_endian : ℕ
big_endian = 4321

-- The properties that the agent reads, and one that stands for those it only passes on.
pub record Properties : Type 0 where
  pub method : Option Text
  pub address : Option Text
  pub path : Option Text
  pub endianness : Option ℕ
  pub simulated : Option Bool
  pub run_id : Option Text
  pub rest : ℕ

abbrev pub no_properties : Properties
no_properties = record {
  method = none;
  address = none;
  path = none;
  endianness = none;
  simulated = none;
  run_id = none;
  rest = 0;
}

-- A field that is undefined is `none`; `is_null` is false then.
pub record Metric (F : Type 0) : Type 0 where
  pub name : Option Text
  pub type : DataType
  pub value : Value F
  pub alias : Option ℕ
  pub is_transient : Option Bool
  pub is_null : Bool
  pub timestamp : Option ℕ
  pub timestamp_ns : Option ℕ
  pub properties : Option Properties
