-- ===== src/EdgeAgent/Buffer.antt =====
-- Values in byte buffers (acs-edge/lib/helpers/typeHandler.ts, `parseValFromBuffer`,
-- `writeValToBuffer` and `typeLens`).
pub mod RoundTrip
pub mod Ranges
pub mod Bounds
use mathlib.Core.List.{reverse}
use amrc_connectivity_stack.Prelude.{
  ℕ, zero, suc, ◌+◌, ◌-◌, ◌*◌, ◌/◌, ◌%◌, ◌^◌, ℤ, pos, negsuc, to_pattern, from_pattern, ◌≡◌, refl,
  Bool, true, false, not, ◌&&◌, List, [], ◌∷◌, ◌++◌, Option, none, some, if◌then◌else◌, ltb, leb,
  ◌==◌, nat_eq, length,
}
use amrc_connectivity_stack.Text.{Text}
use amrc_connectivity_stack.EdgeAgent.Types.{DataType, Value, Metric, Properties, big_endian}
use amrc_connectivity_stack.EdgeAgent.Types.DataType.{
  boolean, int8, int16, int32, int64, uint8, uint16, uint32, uint64, float, double, date_time,
  string, text, uuid,
}
use amrc_connectivity_stack.EdgeAgent.Types.Value.{number, real, bigint, long, str, bool, null}
use amrc_connectivity_stack.EdgeAgent.Bytes.{
  IntKind, read_kind, write_kind, patterns, to_bytes, from_bytes, ordered, drop, take, take_exactly,
  byte_at, read_bytes, test_bit, lowest, highest, leb_ℤ, in_range, int_bytes,
}

-- A number that JavaScript converts a value to.
pub data Num (F : Type 0) : Type 0 where
  whole : ℤ → Num F
  other : F → Num F

-- The numbers and texts of the language: `F` holds what is no whole number, NaN included. `double` is
-- the number nearest to an integer, `within` is the range check of an integer write and `trunc` what
-- it stores; the encodings of floats are little-endian.
pub record Language (F : Type 0) : Type 0 where
  pub within : ℤ → ℤ → F → Bool
  pub trunc : F → ℤ
  pub is_nonzero : F → Bool
  pub number_of : Text → Num F
  pub show : Value F → Text
  pub double : ℤ → Num F
  pub utf8 : Text → List ℕ
  pub from_utf8 : List ℕ → Text
  pub float32 : Num F → List ℕ
  pub float64 : Num F → List ℕ
  pub from_float32 : List ℕ → Num F
  pub from_float64 : List ℕ → Num F

-- The byte order of a metric that is written, big-endian by default.
abbrev pub write_order : Option Properties → ℕ
write_order none = big_endian
write_order (some p) = elim p.endianness [ none ↦ big_endian | some e ↦ e ]

-- What `parseValFromBuffer` gives: an exception, undefined, or a value.
pub data Parsed (F : Type 0) : Type 0 where
  throws undefined : Parsed F
  parsed : Value F → Parsed F

module _ {F : Type 0} where
  unfoldable pub from_number : Num F → Value F
  from_number (whole n) = number n
  from_number (other x) = real x

  unfoldable pub int_value : IntKind → ℕ → Value F
  int_value k p =
      let n = if k.signed then from_pattern (patterns k.size) p else pos p in
      if k.big then bigint n else number n

  abbrev pub fixed : (List ℕ → Value F) → Option (List ℕ) → Parsed F
  fixed f none = throws
  fixed f (some bs) = parsed (f bs)

  unfoldable pub parse_other : Language F → DataType → ℕ → ℕ → List ℕ → Option ℕ → Parsed F
  parse_other lang string e addr buf none = parsed (str (lang.from_utf8 (drop addr buf)))
  parse_other lang string e addr buf (some end) =
      parsed (str (lang.from_utf8 (drop addr (take end buf))))
  parse_other lang boolean e addr buf none = parsed (number (negsuc 0))
  parse_other lang boolean e addr buf (some bit) = parsed (bool (test_bit (byte_at addr buf) bit))
  parse_other lang float e addr buf bit =
      fixed (λ bs. from_number (lang.from_float32 bs)) (read_bytes 4 e addr buf)
  parse_other lang double e addr buf bit =
      fixed (λ bs. from_number (lang.from_float64 bs)) (read_bytes 8 e addr buf)
  parse_other lang _ e addr buf bit = undefined

  -- `parseValFromBuffer`; the address is a number of bytes, and for strings `bit` is the end.
  unfoldable pub parse_val_from_buffer :
      Language F → DataType → ℕ → ℕ → List ℕ → Option ℕ → Parsed F
  parse_val_from_buffer lang type e addr buf bit = elim (read_kind type) [
    | none ↦ parse_other lang type e addr buf bit
    | some k ↦ fixed (λ bs. int_value k (from_bytes bs)) (read_bytes k.size e addr buf)
  ]

  -- The number that a write converts a value to; a bigint is a TypeError.
  abbrev pub coerce : Language F → Value F → Option (Num F)
  coerce lang (number n) = some (whole n)
  coerce lang (real x) = some (other x)
  coerce lang (bigint n) = none
  coerce lang (long n) = some (lang.number_of (lang.show (long n)))
  coerce lang (str t) = some (lang.number_of t)
  coerce lang (bool b) = some (whole (if b then pos 1 else pos 0))
  coerce lang null = some (whole (pos 0))

  -- An integer write; `none` is its exception.
  abbrev pub write_number : Language F → IntKind → ℕ → Option (Num F) → Option (List ℕ)
  write_number lang k e none = none
  write_number lang k e (some (whole n)) = if in_range k n then some (int_bytes k e n) else none
  write_number lang k e (some (other x)) =
      if lang.within (lowest k) (highest k) x then some (int_bytes k e (lang.trunc x)) else none

  abbrev pub write_big : IntKind → ℕ → Value F → Option (List ℕ)
  write_big k e (bigint n) = if in_range k n then some (int_bytes k e n) else none
  write_big k e _ = none

  unfoldable pub write_int : Language F → IntKind → ℕ → Value F → Option (List ℕ)
  write_int lang k e v = if k.big then write_big k e v else write_number lang k e (coerce lang v)

  abbrev pub truthy : Language F → Value F → Bool
  truthy lang (number (pos zero)) = false
  truthy lang (number _) = true
  truthy lang (real x) = lang.is_nonzero x
  truthy lang (bigint (pos zero)) = false
  truthy lang (bigint _) = true
  truthy lang (long _) = true
  truthy lang (str []) = false
  truthy lang (str _) = true
  truthy lang (bool b) = b
  truthy lang null = false

  abbrev write_float : ℕ → (Num F → List ℕ) → Option (Num F) → Option (List ℕ)
  write_float e f none = none
  write_float e f (some x) = some (ordered e (f x))

  -- A value as a text, null and undefined as none.
  abbrev pub text_of : Language F → Value F → Text
  text_of lang null = []
  text_of lang (str t) = t
  text_of lang v = lang.show v

  -- `String(metric.value ?? "")` in UTF-8.
  abbrev text_bytes : Language F → Value F → List ℕ
  text_bytes lang v = lang.utf8 (text_of lang v)

  unfoldable pub write_other : Language F → DataType → ℕ → Value F → Option (List ℕ)
  write_other lang boolean e v = some ((if truthy lang v then 1 else 0) ∷ [])
  write_other lang float e v = write_float e lang.float32 (coerce lang v)
  write_other lang double e v = write_float e lang.float64 (coerce lang v)
  write_other lang string e v = some (text_bytes lang v)
  write_other lang text e v = some (text_bytes lang v)
  write_other lang uuid e v = some (text_bytes lang v)
  write_other lang _ e v = none

  unfoldable pub write_bytes : Language F → DataType → ℕ → Value F → Option (List ℕ)
  write_bytes lang type e v = elim (write_kind type) [
    | none ↦ write_other lang type e v
    | some k ↦ write_int lang k e v
  ]

  -- `writeValToBuffer`; `junk` is what the eight bytes of `allocUnsafe` hold, which an exception
  -- leaves and which are returned then.
  unfoldable pub write_val_to_buffer : Language F → List ℕ → Metric F → List ℕ
  write_val_to_buffer lang junk m =
      elim (write_bytes lang m.type (write_order m.properties) m.value) [
        | none ↦ junk
        | some bs ↦ bs
      ]

-- `typeLens`; `none` is -1.
unfoldable pub type_lens : DataType → Option ℕ
type_lens boolean = some 1
type_lens int8 = some 1
type_lens uint8 = some 1
type_lens uint16 = some 2
type_lens int16 = some 2
type_lens uint32 = some 4
type_lens int32 = some 4
type_lens float = some 4
type_lens double = some 8
type_lens date_time = some 12
type_lens _ = none
