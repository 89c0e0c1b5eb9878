-- ===== src/EdgeAgent/Buffer/RoundTrip.antt =====
-- Reading what was written (acs-edge/lib/helpers/typeHandler.ts).
use amrc_connectivity_stack.Prelude.{
  ℕ, suc, ℤ, to_pattern, ◌≡◌, ◌∙◌, refl, inl, inr, true, List, ◌++◌, Option, some, if◌then◌else◌,
  length, Bool-cases, arith,
}
use amrc_connectivity_stack.EdgeAgent.Types.{DataType, Value, Metric}
use amrc_connectivity_stack.EdgeAgent.Types.DataType.{
  boolean, int8, int16, int32, int64, uint8, uint16, uint32, uint64, float, double, date_time,
  string, text, uuid, data_set, bytes, file, template, property_set, property_set_list,
}
use amrc_connectivity_stack.EdgeAgent.Types.Value.{number, bigint}
use amrc_connectivity_stack.EdgeAgent.Bytes.{
  IntKind, read_kind, write_kind, patterns, to_bytes, in_range, int_bytes,
}
use amrc_connectivity_stack.EdgeAgent.Bytes.Laws.{
  read_bytes-append, length-to_bytes, from_bytes-to_bytes, to_pattern_bound,
  from_pattern-to_pattern, pos_of_unsigned,
}
use amrc_connectivity_stack.EdgeAgent.Buffer.{
  Language, int_value, parse_val_from_buffer, write_int, write_bytes, write_order,
  write_val_to_buffer, parsed,
}

-- The value that an integer type has for a whole number.
abbrev pub whole_value : {F : Type 0} → IntKind → ℤ → Value F
whole_value k n = if k.big then bigint n else number n

pub size-write_kind :
    (t : DataType) (k : IntKind) → write_kind t ≡ some k → (n : ℕ) × (k.size ≡ suc n)
unfolding write_kind
size-write_kind boolean k e = cc
size-write_kind int8 k e = (0, cc)
size-write_kind int16 k e = (1, cc)
size-write_kind int32 k e = (3, cc)
size-write_kind int64 k e = (7, cc)
size-write_kind uint8 k e = (0, cc)
size-write_kind uint16 k e = (1, cc)
size-write_kind uint32 k e = (3, cc)
size-write_kind uint64 k e = (7, cc)
size-write_kind float k e = cc
size-write_kind double k e = cc
size-write_kind date_time k e = cc
size-write_kind string k e = cc
size-write_kind text k e = cc
size-write_kind uuid k e = cc
size-write_kind data_set k e = cc
size-write_kind bytes k e = cc
size-write_kind file k e = cc
size-write_kind template k e = cc
size-write_kind property_set k e = cc
size-write_kind property_set_list k e = cc

-- The two switches agree.
pub read_kind-write_kind : (t : DataType) → read_kind t ≡ write_kind t
unfolding read_kind write_kind
read_kind-write_kind boolean = refl
read_kind-write_kind int8 = refl
read_kind-write_kind int16 = refl
read_kind-write_kind int32 = refl
read_kind-write_kind int64 = refl
read_kind-write_kind uint8 = refl
read_kind-write_kind uint16 = refl
read_kind-write_kind uint32 = refl
read_kind-write_kind uint64 = refl
read_kind-write_kind float = refl
read_kind-write_kind double = refl
read_kind-write_kind date_time = refl
read_kind-write_kind string = refl
read_kind-write_kind text = refl
read_kind-write_kind uuid = refl
read_kind-write_kind data_set = refl
read_kind-write_kind bytes = refl
read_kind-write_kind file = refl
read_kind-write_kind template = refl
read_kind-write_kind property_set = refl
read_kind-write_kind property_set_list = refl

module _ {F : Type 0} (lang : Language F) where
  pub write_int-whole :
      (k : IntKind) (e : ℕ) (n : ℤ)
      → in_range k n ≡ true
      → write_int lang k e (whole_value k n) ≡ some (int_bytes k e n)
  unfolding write_int
  write_int-whole k e n h = ground arith

  pub int_value-pattern :
      (k : IntKind) (m : ℕ) (n : ℤ)
      → k.size ≡ suc m
      → in_range k n ≡ true
      → ◌≡◌ {A = Value F} (int_value k (to_pattern (patterns k.size) n)) (whole_value k n)
  unfolding int_value
  int_value-pattern k m n e h = elim (Bool-cases k.signed) [
    | inl s ↦ rw (s, from_pattern-to_pattern k m n e h s) refl
    | inr s ↦ rw (s, pos_of_unsigned k n h s) refl
  ]

  write_val_to_buffer-whole :
      (junk : List ℕ) (m : Metric F) (k : IntKind) (n : ℤ)
      → write_kind m.type ≡ some k
      → in_range k n ≡ true
      → m.value ≡ whole_value k n
      → write_val_to_buffer lang junk m ≡ int_bytes k (write_order m.properties) n
  unfolding write_val_to_buffer write_bytes
  write_val_to_buffer-whole junk m k n e h v =
      rw (write_val_to_buffer, write_bytes, e, v, write_int-whole k (write_order m.properties) n h)
        refl

  -- An integer between the bounds of the metric's type, once written by `writeValToBuffer`, is read
  -- back by `parseValFromBuffer` in the same byte order, whatever stands before and after it.
  pub parse_val_from_buffer-write_val_to_buffer :
      (junk pre post : List ℕ) (bit : Option ℕ) (m : Metric F) (k : IntKind) (n : ℤ)
      → write_kind m.type ≡ some k
      → in_range k n ≡ true
      → m.value ≡ whole_value k n
      → parse_val_from_buffer lang m.type
          (write_order m.properties)
          (length pre)
          (pre ++ (write_val_to_buffer lang junk m ++ post))
          bit
        ≡ parsed m.value
  unfolding parse_val_from_buffer
  parse_val_from_buffer-write_val_to_buffer junk pre post bit m k n e h v =
      let (j, s) = size-write_kind m.type k e in
      let p : ℕ = to_pattern (patterns k.size) n in
      let r =
        read_bytes-append k.size (write_order m.properties) pre (to_bytes k.size p) post
          (length-to_bytes k.size p) in
      rw
        (
          parse_val_from_buffer,
          read_kind-write_kind m.type ∙ e,
          write_val_to_buffer-whole junk m k n e h v,
          r,
          from_bytes-to_bytes k.size p (to_pattern_bound k j n s h),
          int_value-pattern k j n s h,
          v,
        )
        refl
