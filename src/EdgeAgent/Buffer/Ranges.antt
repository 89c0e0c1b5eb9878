-- ===== src/EdgeAgent/Buffer/Ranges.antt =====
-- The bounds of the integer types of Sparkplug, and those of the methods that read them
-- (acs-edge/lib/helpers/typeHandler.ts, `parseValFromBuffer`).
use amrc_connectivity_stack.Prelude.{
  ℤ, pos, ◌≡◌, refl, ◌∙◌, ◌↔◌, negsuc, Bool, if◌then◌else◌, true, false, Option, none, some, arith,
}
use amrc_connectivity_stack.EdgeAgent.Types.{DataType, Value}
use amrc_connectivity_stack.EdgeAgent.Types.DataType.{
  boolean, int8, int16, int32, int64, uint8, uint16, uint32, uint64, float, double, date_time,
  string, text, uuid, data_set, bytes, file, template, property_set, property_set_list,
}
use amrc_connectivity_stack.EdgeAgent.Types.Value.{number, bigint}
use amrc_connectivity_stack.EdgeAgent.Bytes.{
  IntKind, read_kind, patterns, in_range, lowest, highest, leb_ℤ,
}

-- The bounds of an integer type of Sparkplug, and whether its values are bigints.
pub record TypeRange : Type 0 where
  pub least : ℤ
  pub greatest : ℤ
  pub big : Bool

abbrev pub int_range : DataType → Option TypeRange
int_range int8 = some (record { least = negsuc 127; greatest = pos 127; big = false })
int_range int16 = some (record { least = negsuc 32767; greatest = pos 32767; big = false })
int_range int32 =
    some (record { least = negsuc 2147483647; greatest = pos 2147483647; big = false })
int_range int64 =
    some (record {
      least = negsuc 9223372036854775807;
      greatest = pos 9223372036854775807;
      big = true;
    })
int_range uint8 = some (record { least = pos 0; greatest = pos 255; big = false })
int_range uint16 = some (record { least = pos 0; greatest = pos 65535; big = false })
int_range uint32 = some (record { least = pos 0; greatest = pos 4294967295; big = false })
int_range uint64 = some (record { least = pos 0; greatest = pos 18446744073709551615; big = true })
int_range _ = none

abbrev pub ranged : {F : Type 0} → TypeRange → ℤ → Value F
ranged r n = if r.big then bigint n else number n

abbrev pub Between : TypeRange → ℤ → Type 0
Between r n = (leb_ℤ r.least n ≡ true) × (leb_ℤ n r.greatest ≡ true)

abbrev pub range_of : IntKind → TypeRange
range_of k = record { least = lowest k; greatest = highest k; big = k.big }

pub in_range-Between : (k : IntKind) (n : ℤ) → (in_range k n ≡ true) ↔ Between (range_of k) n
unfolding in_range
in_range-Between k n = ground arith

abbrev Ranged : Option TypeRange → Option IntKind → Type 0
Ranged none k = Unit
Ranged (some r) none = ⊥
Ranged (some r) (some k) = range_of k ≡ r

int_range-read_kind : (t : DataType) → Ranged (int_range t) (read_kind t)
unfolding read_kind patterns
int_range-read_kind boolean = tt
int_range-read_kind int8 = refl
int_range-read_kind int16 = refl
int_range-read_kind int32 = refl
int_range-read_kind int64 = refl
int_range-read_kind uint8 = refl
int_range-read_kind uint16 = refl
int_range-read_kind uint32 = refl
int_range-read_kind uint64 = refl
int_range-read_kind float = tt
int_range-read_kind double = tt
int_range-read_kind date_time = tt
int_range-read_kind string = tt
int_range-read_kind text = tt
int_range-read_kind uuid = tt
int_range-read_kind data_set = tt
int_range-read_kind bytes = tt
int_range-read_kind file = tt
int_range-read_kind template = tt
int_range-read_kind property_set = tt
int_range-read_kind property_set_list = tt

Ranged-kind :
    (o : Option TypeRange) (q : Option IntKind) (r : TypeRange)
    → Ranged o q
    → o ≡ some r
    → (k : IntKind) × ((q ≡ some k) × (range_of k ≡ r))
Ranged-kind none q r h e = cc
Ranged-kind (some x) none r h e = absurd h
Ranged-kind (some x) (some k) r h e = (k, (refl, h ∙ ground (arith, e)))

pub kind_of_range :
    (t : DataType) (r : TypeRange)
    → int_range t ≡ some r
    → (k : IntKind) × ((read_kind t ≡ some k) × (range_of k ≡ r))
kind_of_range t r e = Ranged-kind (int_range t) (read_kind t) r (int_range-read_kind t) e
