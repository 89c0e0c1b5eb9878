-- ===== src/EdgeAgent/Bytes/Laws.antt =====
-- How bytes, patterns and byte orders undo each other (acs-edge/lib/helpers/typeHandler.ts).
use mathlib.Core.List.{reverse, reverse-reverse, reverse-cons}
use amrc_connectivity_stack.Prelude.{
  ℕ, zero, suc, ◌+◌, ◌*◌, ◌/◌, ◌≤◌, ◌<◌, ℤ, pos, negsuc, to_pattern, from_pattern, ◌≡◌, refl, ap,
  ◌∙◌, subst, true, false, List, [], ◌∷◌, ◌++◌, none, some, nat_eq, length, length-append, All,
  Left, option_holds, arith,
}
use amrc_connectivity_stack.EdgeAgent.Bytes.{
  IntKind, patterns, to_bytes, from_bytes, ordered, drop, take_exactly, read_bytes, in_range,
}

abbrev pub IsByte : ℕ → Type 0
IsByte b = b < 256

length-reverse : (bs : List ℕ) → length (reverse bs) ≡ length bs
length-reverse [] = refl
length-reverse (b ∷ bs) =
    rw (reverse-cons b bs, length-append (reverse bs) (b ∷ []), length-reverse bs) (omega arith)

All-append : (xs ys : List ℕ) → All IsByte xs → All IsByte ys → All IsByte (xs ++ ys)
All-append [] ys h k = k
All-append (x ∷ xs) ys (hx, h) k = (hx, All-append xs ys h k)

All-reverse : (bs : List ℕ) → All IsByte bs → All IsByte (reverse bs)
All-reverse [] h = tt
All-reverse (b ∷ bs) (hb, h) =
    rw (reverse-cons b bs) (All-append (reverse bs) (b ∷ []) (All-reverse bs h) (hb, tt))

pub ordered-ordered : (e : ℕ) (bs : List ℕ) → ordered e (ordered e bs) ≡ bs
unfolding ordered
ordered-ordered e bs = ground (arith, reverse-reverse bs)

pub length-ordered : (e : ℕ) (bs : List ℕ) → length (ordered e bs) ≡ length bs
unfolding ordered
length-ordered e bs = ground (arith, length-reverse bs)

pub All-ordered : (e : ℕ) (bs : List ℕ) → All IsByte bs → All IsByte (ordered e bs)
unfolding ordered
All-ordered e bs h = ground (arith, All-reverse bs h)

pub length-to_bytes : (n p : ℕ) → length (to_bytes n p) ≡ n
unfolding to_bytes
length-to_bytes zero p = refl
length-to_bytes (suc n) p = omega (arith, length-to_bytes n (p / 256))

pub All-to_bytes : (n p : ℕ) → All IsByte (to_bytes n p)
unfolding to_bytes
All-to_bytes zero p = tt
All-to_bytes (suc n) p = (omega arith, All-to_bytes n (p / 256))

pub from_bytes-to_bytes : (n p : ℕ) → p < patterns n → from_bytes (to_bytes n p) ≡ p
unfolding to_bytes from_bytes patterns
from_bytes-to_bytes zero p h = omega arith
from_bytes-to_bytes (suc n) p h = omega (arith, from_bytes-to_bytes n (p / 256) (omega arith))

pub from_bytes_bound : (bs : List ℕ) → All IsByte bs → from_bytes bs < patterns (length bs)
unfolding from_bytes patterns
from_bytes_bound [] h = omega arith
from_bytes_bound (b ∷ bs) (hb, h) = omega (arith, from_bytes_bound bs h)

pub drop-append : (pre bs : List ℕ) → drop (length pre) (pre ++ bs) ≡ bs
unfolding drop
drop-append [] bs = refl
drop-append (p ∷ pre) bs = drop-append pre bs

pub take_exactly-append : (bs post : List ℕ) → take_exactly (length bs) (bs ++ post) ≡ some bs
unfolding take_exactly
take_exactly-append [] post = refl
take_exactly-append (b ∷ bs) post = rw (take_exactly-append bs post) refl

-- What lies at an address, in the byte order it was written with, is read.
pub read_bytes-append :
    (n e : ℕ) (pre bs post : List ℕ)
    → length bs ≡ n
    → read_bytes n e (length pre) (pre ++ (ordered e bs ++ post)) ≡ some bs
unfolding read_bytes
read_bytes-append n e pre bs post h =
    let t : take_exactly n (ordered e bs ++ post) ≡ some (ordered e bs) =
      subst (λ (k : ℕ). take_exactly k (ordered e bs ++ post) ≡ some (ordered e bs))
        (length-ordered e bs ∙ h) (take_exactly-append (ordered e bs) post) in
    rw (read_bytes, drop-append pre (ordered e bs ++ post), t, ordered-ordered e bs) refl

pub patterns_even : (n : ℕ) → (k : ℕ) × (patterns (suc n) ≡ k + k) × (1 ≤ k)
unfolding patterns
patterns_even zero = (128, omega arith, omega arith)
patterns_even (suc n) = let (k, e, h) = patterns_even n in (256 * k, omega arith, omega arith)

-- Whole numbers between the least and the greatest of their kind are patterns, and come back.
pub to_pattern_bound :
    (k : IntKind) (n : ℕ) (z : ℤ)
    → k.size ≡ suc n
    → in_range k z ≡ true
    → to_pattern (patterns k.size) z < patterns k.size
unfolding in_range
to_pattern_bound k n (pos a) e h = let (j, d, l) = patterns_even n in ground (arith, ap patterns e)
to_pattern_bound k n (negsuc a) e h =
    let (j, d, l) = patterns_even n in ground (arith, ap patterns e)

pub from_pattern-to_pattern :
    (k : IntKind) (n : ℕ) (z : ℤ)
    → k.size ≡ suc n
    → in_range k z ≡ true
    → k.signed ≡ true
    → from_pattern (patterns k.size) (to_pattern (patterns k.size) z) ≡ z
unfolding in_range
from_pattern-to_pattern k n (pos a) e h s =
    let (j, d, l) = patterns_even n in ground (arith, ap patterns e)
from_pattern-to_pattern k n (negsuc a) e h s =
    let (j, d, l) = patterns_even n in ground (arith, ap patterns e)

pub from_pattern_range :
    (k : IntKind) (n p : ℕ)
    → k.size ≡ suc n
    → k.signed ≡ true
    → p < patterns k.size
    → in_range k (from_pattern (patterns k.size) p) ≡ true
unfolding in_range
from_pattern_range k n p e s h = let (j, d, l) = patterns_even n in ground (arith, ap patterns e)

pub pos_range :
    (k : IntKind) (n p : ℕ)
    → k.size ≡ suc n
    → k.signed ≡ false
    → p < patterns k.size
    → in_range k (pos p) ≡ true
unfolding in_range
pos_range k n p e s h = let (j, d, l) = patterns_even n in ground (arith, ap patterns e)

pub pos_of_unsigned :
    (k : IntKind) (z : ℤ)
    → in_range k z ≡ true
    → k.signed ≡ false
    → pos (to_pattern (patterns k.size) z) ≡ z
unfolding in_range
pos_of_unsigned k (pos a) h s = refl
pos_of_unsigned k (negsuc a) h s = ground arith

All-drop : (n : ℕ) (bs : List ℕ) → All IsByte bs → All IsByte (drop n bs)
unfolding drop
All-drop zero bs h = h
All-drop (suc n) [] h = tt
All-drop (suc n) (b ∷ bs) (hb, h) = All-drop n bs h

take_exactly-Left :
    (n : ℕ) (bs : List ℕ)
    → All IsByte bs
    → Left (λ r. (length r ≡ n) × All IsByte r) (take_exactly n bs)
unfolding take_exactly
take_exactly-Left zero bs h = (refl, tt)
take_exactly-Left (suc n) [] h = tt
take_exactly-Left (suc n) (b ∷ bs) (hb, h) =
    option_holds (λ o. Left (λ r. (length r ≡ suc n) × All IsByte r) o) (take_exactly n bs) none
      (λ t. some (b ∷ t)) (λ _. tt)
      (λ t e.
        let ih =
          subst (λ o. Left (λ r. (length r ≡ n) × All IsByte r) o) e (take_exactly-Left n bs h) in
        (ap (λ (m : ℕ). suc m) ih.0, (hb, ih.1)))

-- What is read has the size that was asked for, and only bytes.
pub read_bytes-Left :
    (n e addr : ℕ) (buf : List ℕ)
    → All IsByte buf
    → Left (λ r. (length r ≡ n) × All IsByte r) (read_bytes n e addr buf)
unfolding read_bytes
read_bytes-Left n e addr buf h =
    option_holds (λ o. Left (λ r. (length r ≡ n) × All IsByte r) o) (take_exactly n (drop addr buf))
      none (λ bs. some (ordered e bs)) (λ _. tt)
      (λ bs eq.
        let ih =
          subst (λ o. Left (λ r. (length r ≡ n) × All IsByte r) o) eq
            (take_exactly-Left n (drop addr buf) (All-drop addr buf h)) in
        (length-ordered e bs ∙ ih.0, All-ordered e bs ih.1))
