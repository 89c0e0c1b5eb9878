-- ===== src/EdgeAgent/Bytes.antt =====
-- Whole numbers as bytes, in two's complement and in both byte orders: what the methods of `Buffer`
-- do for acs-edge/lib/helpers/typeHandler.ts. A buffer is a list of bytes.
pub mod Laws
use mathlib.Core.List.{reverse}
use amrc_connectivity_stack.Prelude.{
  ℕ, zero, suc, ◌+◌, ◌-◌, ◌*◌, ◌/◌, ◌%◌, ◌^◌, ℤ, pos, negsuc, to_pattern, from_pattern, ◌≡◌, refl,
  Bool, true, false, not, ◌&&◌, List, [], ◌∷◌, ◌++◌, Option, none, some, if◌then◌else◌, ltb, leb,
  ◌==◌, nat_eq, length,
}
use amrc_connectivity_stack.Text.{Text}
use amrc_connectivity_stack.EdgeAgent.Types.{DataType, Value, Metric, Properties, big_endian}
use amrc_connectivity_stack.EdgeAgent.Types.DataType.{
  boolean, int8, int16, int32, int64, uint8, uint16, uint32, uint64, float, double, date_time,
  string, text, uuid,
}
use amrc_connectivity_stack.EdgeAgent.Types.Value.{number, real, bigint, str, bool, null}

-- A method of `Buffer` for integers: its bytes, its sign, and whether it is of bigints.
pub record IntKind : Type 0 where
  pub size : ℕ
  pub signed : Bool
  pub big : Bool

-- The method that `parseValFromBuffer` calls for a type.
unfoldable pub read_kind : DataType → Option IntKind
read_kind int8 = some (record { size = 1; signed = true; big = false })
read_kind int16 = some (record { size = 2; signed = true; big = false })
read_kind int32 = some (record { size = 4; signed = true; big = false })
read_kind int64 = some (record { size = 8; signed = true; big = true })
read_kind uint8 = some (record { size = 1; signed = false; big = false })
read_kind uint16 = some (record { size = 2; signed = false; big = false })
read_kind uint32 = some (record { size = 4; signed = false; big = false })
read_kind uint64 = some (record { size = 8; signed = false; big = true })
read_kind _ = none

-- The method that `writeValToBuffer` calls for a type.
unfoldable pub write_kind : DataType → Option IntKind
write_kind int8 = some (record { size = 1; signed = true; big = false })
write_kind int16 = some (record { size = 2; signed = true; big = false })
write_kind int32 = some (record { size = 4; signed = true; big = false })
write_kind int64 = some (record { size = 8; signed = true; big = true })
write_kind uint8 = some (record { size = 1; signed = false; big = false })
write_kind uint16 = some (record { size = 2; signed = false; big = false })
write_kind uint32 = some (record { size = 4; signed = false; big = false })
write_kind uint64 = some (record { size = 8; signed = false; big = true })
write_kind _ = none

-- The number of byte patterns.
unfoldable pub patterns : ℕ → ℕ
patterns zero = 1
patterns (suc n) = 256 * patterns n

-- Lowest byte first.
unfoldable pub to_bytes : ℕ → ℕ → List ℕ
to_bytes zero p = []
to_bytes (suc n) p = p % 256 ∷ to_bytes n (p / 256)

unfoldable pub from_bytes : List ℕ → ℕ
from_bytes [] = 0
from_bytes (b ∷ bs) = b + 256 * from_bytes bs

-- Anything but `bigEndian` is little-endian.
unfoldable pub ordered : ℕ → List ℕ → List ℕ
ordered e bs = if e == big_endian then reverse bs else bs

-- `subarray` to the end, and the first `n` bytes of that, if there are so many.
unfoldable pub drop : ℕ → List ℕ → List ℕ
drop zero bs = bs
drop (suc n) [] = []
drop (suc n) (b ∷ bs) = drop n bs

unfoldable pub take_exactly : ℕ → List ℕ → Option (List ℕ)
take_exactly zero bs = some []
take_exactly (suc n) [] = none
take_exactly (suc n) (b ∷ bs) = elim (take_exactly n bs) [ none ↦ none | some t ↦ some (b ∷ t) ]

unfoldable pub take : ℕ → List ℕ → List ℕ
take zero bs = []
take (suc n) [] = []
take (suc n) (b ∷ bs) = b ∷ take n bs

unfoldable pub byte_at : ℕ → List ℕ → ℕ
byte_at n [] = 0
byte_at zero (b ∷ bs) = b
byte_at (suc n) (b ∷ bs) = byte_at n bs

-- The bytes of a fixed size at an address; `none` is the RangeError.
unfoldable pub read_bytes : ℕ → ℕ → ℕ → List ℕ → Option (List ℕ)
unfolding take_exactly drop
read_bytes n e addr buf = elim (take_exactly n (drop addr buf)) [
  | none ↦ none
  | some bs ↦ some (ordered e bs)
]

-- Bit `bit` of a byte; `1 << bit` is taken modulo 32.
abbrev pub test_bit : ℕ → ℕ → Bool
test_bit byte bit = (byte / 2 ^ (bit % 32)) % 2 == 1

abbrev pub lowest : IntKind → ℤ
lowest k = if k.signed then negsuc (patterns k.size / 2 - 1) else pos 0

abbrev pub highest : IntKind → ℤ
highest k = pos ((if k.signed then patterns k.size / 2 else patterns k.size) - 1)

abbrev pub leb_ℤ : ℤ → ℤ → Bool
leb_ℤ (pos a) (pos b) = leb a b
leb_ℤ (pos a) (negsuc b) = false
leb_ℤ (negsuc a) (pos b) = true
leb_ℤ (negsuc a) (negsuc b) = leb b a

unfoldable pub in_range : IntKind → ℤ → Bool
in_range k n = leb_ℤ (lowest k) n && leb_ℤ n (highest k)

abbrev pub int_bytes : IntKind → ℕ → ℤ → List ℕ
int_bytes k e n = ordered e (to_bytes k.size (to_pattern (patterns k.size) n))
