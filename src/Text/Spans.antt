-- ===== src/Text/Spans.antt =====
-- Regular expressions that are runs of character classes, by the longest run of each.
use amrc_connectivity_stack.Prelude.{
  ℕ, ◌≡◌, refl, Bool, true, false, ◌&&◌, List, [], ◌∷◌, ◌++◌, arith, if◌then◌else◌, leb, every,
}

abbrev pub is_upper : ℕ → Bool
is_upper c = leb b'A' c && leb c b'Z'

abbrev pub is_lower : ℕ → Bool
is_lower c = leb b'a' c && leb c b'z'

abbrev pub is_digit : ℕ → Bool
is_digit c = leb b'0' c && leb c b'9'

abbrev pub is_empty : List ℕ → Bool
is_empty [] = true
is_empty (c ∷ s) = false

-- The longest run of a class at the front, and what is behind it.
abbrev pub take_while : (ℕ → Bool) → List ℕ → List ℕ
take_while p [] = []
take_while p (c ∷ s) = if p c then c ∷ take_while p s else []

abbrev pub drop_while : (ℕ → Bool) → List ℕ → List ℕ
drop_while p [] = []
drop_while p (c ∷ s) = if p c then drop_while p s else c ∷ s

module _ (p : ℕ → Bool) where
  -- What `[...]+` matches.
  abbrev pub Run : List ℕ → Type 0
  Run s = (is_empty s ≡ false) × (every p s ≡ true)

  -- Text that does not go on with the class.
  abbrev pub Stops : List ℕ → Type 0
  Stops [] = Unit
  Stops (c ∷ s) = p c ≡ false

  pub take_while-append : (k s : List ℕ) → every p k ≡ true → Stops s → take_while p (k ++ s) ≡ k
  take_while-append [] [] h t = refl
  take_while-append [] (c ∷ s) h t = ground (arith, t)
  take_while-append (c ∷ k) s h t = ground (arith, take_while-append k s)

  pub drop_while-append : (k s : List ℕ) → every p k ≡ true → Stops s → drop_while p (k ++ s) ≡ s
  drop_while-append [] [] h t = refl
  drop_while-append [] (c ∷ s) h t = ground (arith, t)
  drop_while-append (c ∷ k) s h t = ground (arith, drop_while-append k s)

  pub take_while-append-drop_while : (s : List ℕ) → take_while p s ++ drop_while p s ≡ s
  take_while-append-drop_while [] = refl
  take_while-append-drop_while (c ∷ s) = ground (arith, take_while-append-drop_while s)

  pub every-take_while : (s : List ℕ) → every p (take_while p s) ≡ true
  every-take_while [] = refl
  every-take_while (c ∷ s) = ground (arith, every-take_while s)

  pub every-drop_while :
      (q : ℕ → Bool) (s : List ℕ) → every q s ≡ true → every q (drop_while p s) ≡ true
  every-drop_while q [] h = refl
  every-drop_while q (c ∷ s) h = ground (arith, every-drop_while q s)

-- A wider class takes what a narrower one takes.
pub every-imp :
    (p q : ℕ → Bool) (s : List ℕ)
    → ((c : ℕ) → p c ≡ true → q c ≡ true)
    → every p s ≡ true
    → every q s ≡ true
every-imp p q [] f h = refl
every-imp p q (c ∷ s) f h = ground (arith, f c, every-imp p q s f)
