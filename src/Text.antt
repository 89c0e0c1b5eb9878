-- ===== src/Text.antt =====
-- JavaScript strings as lists of UTF-16 code units, and `split`.
pub mod Spans
use Prim.Native.Char.{code}
use mathlib.Core.Path.{ap₂}
use amrc_connectivity_stack.Prelude.{
  ℕ, String, ◌≡◌, refl, ◌≢◌, List, [], ◌∷◌, ◌++◌, arith, ◌||◌, Bool, if◌then◌else◌, ◌==◌, nat_eq,
  list_eq, All, ==_iff, Bool-cases, inl, inr, sym, ap, ◌∙◌,
}

abbrev pub Text : Type 0
Text = List ℕ

-- The code units of an ASCII literal.
abbrev pub codes : String → Text
codes String.[] = []
codes (String.◌∷◌ letter rest) = code letter ∷ codes rest

-- What `.` does not match in a regular expression.
abbrev pub is_line_end : ℕ → Bool
is_line_end c = c == 10 || c == 13 || c == 8232 || c == 8233

-- The longest run that `.*` matches.
abbrev pub take_line : Text → Text
take_line [] = []
take_line (c ∷ s) = if is_line_end c then [] else c ∷ take_line s

abbrev pub slash : ℕ
slash = b'/'

-- Puts a code unit in front of the first part.
abbrev cons_first : ℕ → List Text → List Text
cons_first c [] = (c ∷ []) ∷ []
cons_first c (p ∷ ps) = (c ∷ p) ∷ ps

-- `s.split("/")`: as many parts as slashes, and one more.
unfoldable pub split : Text → List Text
split [] = [] ∷ []
split (c ∷ s) = let rest = split s in if c == slash then [] ∷ rest else cons_first c rest

abbrev pub NoSlash : Text → Type 0
NoSlash = All (λ c. c ≢ slash)

split_cons : (s : Text) → (p : Text) × (ps : List Text) × (split s ≡ p ∷ ps)
unfolding split
split_cons [] = ([], [], refl)
split_cons (c ∷ s) = elim (Bool-cases (c == slash)) [
  | inl e ↦ ([], split s, rw e)
  | inr n ↦ let (p, ps, e) = split_cons s in (c ∷ p, ps, rw (n, e))
]

-- A part with no slash, then a slash, then the rest.
pub split-append : (p s : Text) → NoSlash p → split (p ++ slash ∷ s) ≡ p ∷ split s
unfolding split
split-append [] s h = refl
split-append (c ∷ p) s (n, h) = ground (arith, split-append p s h)

pub split_of_NoSlash : (p : Text) → NoSlash p → split p ≡ p ∷ []
unfolding split
split_of_NoSlash [] h = refl
split_of_NoSlash (c ∷ p) (n, h) = ground (arith, split_of_NoSlash p h)

-- What holds of every code unit holds of those of every part.
module _ (P : ℕ → Type 0) where
  cons_first-All : (c : ℕ) (ps : List Text) → P c → All (All P) ps → All (All P) (cons_first c ps)
  cons_first-All c [] n h = ((n, tt), tt)
  cons_first-All c (p ∷ ps) n (hp, hs) = ((n, hp), hs)

  pub split-All : (s : Text) → All P s → All (All P) (split s)
  unfolding split
  split-All [] h = (tt, tt)
  split-All (c ∷ s) (hc, h) = elim (Bool-cases (c == slash)) [
    | inl e ↦ rw e (tt, split-All s h)
    | inr n ↦ rw n (cons_first-All c (split s) hc (split-All s h))
  ]

-- What `split` gives, joined again.
abbrev pub join : List Text → Text
join [] = []
join (p ∷ []) = p
join (p ∷ q ∷ ps) = p ++ slash ∷ join (q ∷ ps)

join-cons_first : (c : ℕ) (ps : List Text) → join (cons_first c ps) ≡ c ∷ join ps
join-cons_first c [] = refl
join-cons_first c (p ∷ []) = refl
join-cons_first c (p ∷ q ∷ ps) = refl

join-nil_cons : (s : Text) → join ([] ∷ split s) ≡ slash ∷ join (split s)
join-nil_cons s = let (p, ps, e) = split_cons s in rw e

pub join-split : (s : Text) → join (split s) ≡ s
unfolding split
join-split [] = refl
join-split (c ∷ s) = elim (Bool-cases (c == slash)) [
  | inl e ↦ rw e (join-nil_cons s ∙ ap₂ ◌∷◌ (sym ((==_iff c slash).0 e)) (join-split s))
  | inr n ↦ rw n (join-cons_first c (split s) ∙ ap (c ∷◌) (join-split s))
]

pub join_of_split : (s : Text) (ps : List Text) → split s ≡ ps → join ps ≡ s
join_of_split s ps e = rw (← e) (join-split s)

split_tests : split (codes "a/b//") ≡ codes "a" ∷ codes "b" ∷ [] ∷ [] ∷ []
unfolding split
split_tests = refl
