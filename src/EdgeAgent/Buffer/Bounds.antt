-- ===== src/EdgeAgent/Buffer/Bounds.antt =====
-- The ranges of what is read and the sizes of what is written
-- (acs-edge/lib/helpers/typeHandler.ts).
use amrc_connectivity_stack.Prelude.{
  ℕ, suc, ◌<◌, ℤ, pos, to_pattern, from_pattern, ◌≡◌, refl, sym, ◌∙◌, ap, subst, ◌++◌, ◌⊎◌, inl,
  inr, true, false, List, Option, none, some, length, Bool-cases, All, Left, Option-cases, if_holds,
  arith,
}
use amrc_connectivity_stack.EdgeAgent.Types.{DataType, Value, Metric}
use amrc_connectivity_stack.EdgeAgent.Types.Value.{number, real, bigint, long, str, bool, null}
use amrc_connectivity_stack.EdgeAgent.Bytes.{
  IntKind, read_kind, write_kind, patterns, to_bytes, from_bytes, read_bytes, in_range, int_bytes,
  lowest, highest,
}
use amrc_connectivity_stack.EdgeAgent.Bytes.Laws.{
  IsByte, read_bytes-Left, from_bytes_bound, length-to_bytes, All-to_bytes, length-ordered,
  All-ordered, from_pattern_range, pos_range, read_bytes-append, from_bytes-to_bytes,
  to_pattern_bound,
}
use amrc_connectivity_stack.EdgeAgent.Buffer.{
  Language, Num, whole, other, coerce, int_value, parse_val_from_buffer, write_number, write_big,
  write_int, write_bytes, write_order, write_val_to_buffer, parsed, throws,
}
use amrc_connectivity_stack.EdgeAgent.Buffer.RoundTrip.{
  whole_value, read_kind-write_kind, size-write_kind, int_value-pattern,
}
use amrc_connectivity_stack.EdgeAgent.Buffer.Ranges.{
  TypeRange, int_range, ranged, Between, in_range-Between, kind_of_range,
}

-- The value is a whole number that the kind can hold.
abbrev pub Holds : {F : Type 0} → IntKind → Value F → Type 0
Holds k v = (n : ℤ) × (v ≡ whole_value k n) × (in_range k n ≡ true)

-- The bytes are as many as the kind has.
abbrev pub Sized : IntKind → List ℕ → Type 0
Sized k bs = (length bs ≡ k.size) × All IsByte bs

int_bytes-Sized : (k : IntKind) (e : ℕ) (n : ℤ) → Sized k (int_bytes k e n)
int_bytes-Sized k e n =
    let p = to_pattern (patterns k.size) n in
    (
      length-ordered e (to_bytes k.size p) ∙ length-to_bytes k.size p,
      All-ordered e (to_bytes k.size p) (All-to_bytes k.size p),
    )

module _ {F : Type 0} (lang : Language F) where
  int_value-Holds :
      (k : IntKind) (m p : ℕ)
      → k.size ≡ suc m
      → p < patterns k.size
      → Holds {F = F} k (int_value k p)
  unfolding int_value
  int_value-Holds k m p e h = elim (Bool-cases k.signed) [
    | inl s ↦ (from_pattern (patterns k.size) p, rw (s) refl, from_pattern_range k m p e s h)
    | inr s ↦ (pos p, rw (s) refl, pos_range k m p e s h)
  ]

  -- A value of a kind, or an exception.
  pub parse_val_from_buffer-Holds :
      (t : DataType) (k : IntKind) (e addr : ℕ) (buf : List ℕ) (bit : Option ℕ)
      → read_kind t ≡ some k
      → All IsByte buf
      → (parse_val_from_buffer lang t e addr buf bit ≡ throws)
        ⊎ ((v : Value F) × (parse_val_from_buffer lang t e addr buf bit ≡ parsed v) × Holds k v)
  unfolding parse_val_from_buffer
  parse_val_from_buffer-Holds t k e addr buf bit i h =
      elim (Option-cases (read_bytes k.size e addr buf)) [
        | inl r ↦ inl (rw (parse_val_from_buffer, i, r) refl)
        | inr (bs, r) ↦
            let (j, s) = size-write_kind t k (sym (read_kind-write_kind t) ∙ i) in
            let l =
              subst (λ o. Left (λ r. (length r ≡ k.size) × All IsByte r) o) r
                (read_bytes-Left k.size e addr buf h) in
            let b : from_bytes bs < patterns k.size =
              subst (λ n. from_bytes bs < patterns n) l.0 (from_bytes_bound bs l.1) in
            inr (
              int_value k (from_bytes bs),
              rw (parse_val_from_buffer, i, r) refl,
              int_value-Holds k j (from_bytes bs) s b,
            )
      ]

  -- Every number of a kind is read from its bytes, whatever stands before and after them.
  parse_val_from_buffer-int_bytes :
      (t : DataType) (k : IntKind) (e : ℕ) (n : ℤ) (pre post : List ℕ) (bit : Option ℕ)
      → read_kind t ≡ some k
      → in_range k n ≡ true
      → parse_val_from_buffer lang t e (length pre) (pre ++ (int_bytes k e n ++ post)) bit
        ≡ parsed (whole_value k n)
  unfolding parse_val_from_buffer
  parse_val_from_buffer-int_bytes t k e n pre post bit i h =
      let (j, s) = size-write_kind t k (sym (read_kind-write_kind t) ∙ i) in
      let p : ℕ = to_pattern (patterns k.size) n in
      rw
        (
          parse_val_from_buffer,
          i,
          read_bytes-append k.size e pre (to_bytes k.size p) post (length-to_bytes k.size p),
          from_bytes-to_bytes k.size p (to_pattern_bound k j n s h),
          int_value-pattern lang k j n s h,
        )
        refl

  -- What holds exactly of the bounds of a type.
  abbrev Exact : DataType → ℕ → Option ℕ → TypeRange → Type 0
  Exact t e bit r =
      ((addr : ℕ) (buf : List ℕ)
        → All IsByte buf
        → (parse_val_from_buffer lang t e addr buf bit ≡ throws)
          ⊎ ((n : ℤ) × (parse_val_from_buffer lang t e addr buf bit ≡ parsed (ranged r n))
              × Between r n))
      × ((n : ℤ) (pre post : List ℕ)
          → Between r n
          → (bs : List ℕ) × (parse_val_from_buffer lang t e (length pre) (pre ++ (bs ++ post)) bit
              ≡ parsed (ranged r n)))

  -- For an integer type with these bounds, every bytes at an address that give no exception give a
  -- number between the bounds, and each number between them is what some bytes give at any address,
  -- with anything after them.
  pub parse_val_from_buffer_bound :
      (t : DataType) (r : TypeRange) (e : ℕ) (bit : Option ℕ)
      → int_range t ≡ some r
      → ((addr : ℕ) (buf : List ℕ)
          → All IsByte buf
          → (parse_val_from_buffer lang t e addr buf bit ≡ throws)
            ⊎ ((n : ℤ) × (parse_val_from_buffer lang t e addr buf bit ≡ parsed (ranged r n))
                × Between r n))
        × ((n : ℤ) (pre post : List ℕ)
            → Between r n
            → (bs : List ℕ) × (parse_val_from_buffer lang t e (length pre) (pre ++ (bs ++ post)) bit
                ≡ parsed (ranged r n)))
  parse_val_from_buffer_bound t r e bit i =
      let (k, (q, g)) = kind_of_range t r i in
      subst (λ (r : TypeRange). Exact t e bit r) g
        (
          (λ addr buf h. elim (parse_val_from_buffer-Holds t k e addr buf bit q h) [
            | inl x ↦ inl x
            | inr (v, x, (n, y, z)) ↦ inr (n, x ∙ ap parsed y, (in_range-Between k n).0 z)
          ]),
          λ n pre post z. (
            int_bytes k e n,
            parse_val_from_buffer-int_bytes t k e n pre post bit q ((in_range-Between k n).1 z),
          ),
        )

  write_number-Sized :
      (k : IntKind) (e : ℕ) (n : Option (Num F)) → Left (Sized k) (write_number lang k e n)
  write_number-Sized k e none = tt
  write_number-Sized k e (some (whole n)) =
      if_holds (λ o. Left (Sized k) o) (in_range k n) _ _ (λ _. int_bytes-Sized k e n) (λ _. tt)
  write_number-Sized k e (some (other x)) =
      if_holds (λ o. Left (Sized k) o) (lang.within (lowest k) (highest k) x) _ _
        (λ _. int_bytes-Sized k e (lang.trunc x)) (λ _. tt)

  write_big-Sized : (k : IntKind) (e : ℕ) (v : Value F) → Left (Sized k) (write_big k e v)
  write_big-Sized k e (bigint n) =
      if_holds (λ o. Left (Sized k) o) (in_range k n) _ _ (λ _. int_bytes-Sized k e n) (λ _. tt)
  write_big-Sized k e (number n) = tt
  write_big-Sized k e (real x) = tt
  write_big-Sized k e (str t) = tt
  write_big-Sized k e (long n) = tt
  write_big-Sized k e (bool b) = tt
  write_big-Sized k e null = tt

  write_int-Sized : (k : IntKind) (e : ℕ) (v : Value F) → Left (Sized k) (write_int lang k e v)
  unfolding write_int
  write_int-Sized k e v =
      if_holds (λ o. Left (Sized k) o) k.big _ _ (λ _. write_big-Sized k e v)
        (λ _. write_number-Sized k e (coerce lang v))

  -- For a metric of an integer type, `writeValToBuffer` returns either exactly the bytes that the type
  -- takes, or the eight bytes of its buffer as they were allocated.
  write_val_to_buffer_bound :
      (junk : List ℕ) (m : Metric F) (k : IntKind)
      → write_kind m.type ≡ some k
      → Sized k (write_val_to_buffer lang junk m) ⊎ (write_val_to_buffer lang junk m ≡ junk)
  unfolding write_val_to_buffer write_bytes
  write_val_to_buffer_bound junk m k i =
      elim (Option-cases (write_int lang k (write_order m.properties) m.value)) [
        | inl w ↦ inr (rw (write_val_to_buffer, write_bytes, i, w) refl)
        | inr (bs, w) ↦ inl (
            rw (write_val_to_buffer, write_bytes, i, w)
              (subst (λ o. Left (Sized k) o) w
                (write_int-Sized k (write_order m.properties) m.value)))
      ]

  -- For a whole number that a metric's integer type cannot hold, `writeValToBuffer` returns the eight
  -- bytes of its buffer as they were allocated.
  write_val_to_buffer_out_of_range :
      (junk : List ℕ) (m : Metric F) (k : IntKind) (n : ℤ)
      → write_kind m.type ≡ some k
      → in_range k n ≡ false
      → m.value ≡ whole_value k n
      → write_val_to_buffer lang junk m ≡ junk
  unfolding write_val_to_buffer write_bytes
  write_val_to_buffer_out_of_range junk m k n i h v =
      let w : write_int lang k (write_order m.properties) (whole_value k n) ≡ none =
        unfold write_int in ground arith in
      rw (write_val_to_buffer, write_bytes, i, v, w) refl
