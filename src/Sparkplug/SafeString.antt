-- ===== src/Sparkplug/SafeString.antt =====
-- `sparkplug_safe_string`: its four replacements, each as a pass over the code units.
pub mod Idempotent
use amrc_connectivity_stack.Prelude.{
  ℕ, ◌+◌, ◌-◌, ◌≡◌, refl, sym, ap, ◌∙◌, ◌≢◌, ◌⊎◌, inl, inr, Bool, true, false, ◌&&◌, ◌||◌, List, [],
  ◌∷◌, ◌++◌, Option, none, some, arith, if◌then◌else◌, ◌==◌, nat_eq, leb, filter, All, every,
  Bool-cases,
}
use amrc_connectivity_stack.Text.{Text, codes}

abbrev is_upper : ℕ → Bool
is_upper c = leb b'A' c && leb c b'Z'

abbrev is_lower : ℕ → Bool
is_lower c = leb b'a' c && leb c b'z'

-- `\w`
abbrev pub is_word : ℕ → Bool
is_word c = is_upper c || is_lower c || (leb b'0' c && leb c b'9') || c == b'_'

abbrev space : ℕ
space = 32

-- Removes what `[^A-Za-z0-9_ ]` matches.
keep_name : Text → Text
keep_name = filter (λ c. is_word c || c == space)

upper : ℕ → ℕ
upper c = if is_lower c then c - 32 else c

-- `/\b\w/g`: a word character at the start or behind one that is none. `after` tells whether the
-- code unit before is a word character.
title_case : Bool → Text → Text
title_case after [] = []
title_case after (c ∷ s) =
    (if is_word c && (if after then false else true) then upper c else c) ∷ title_case (is_word c) s

spaces_to_underscores : Text → Text
spaces_to_underscores [] = []
spaces_to_underscores (c ∷ s) = (if c == space then b'_' else c) ∷ spaces_to_underscores s

-- `/([a-z])([A-Z])/g` to `$1_$2`. No two matches share a code unit.
separate_words : Text → Text
separate_words [] = []
separate_words (c ∷ []) = c ∷ []
separate_words (c ∷ d ∷ s) =
    if is_lower c && is_upper d
    then c ∷ b'_' ∷ separate_words (d ∷ s)
    else c ∷ separate_words (d ∷ s)

unfoldable pub sparkplug_safe_string : Text → Text
unfolding keep_name upper title_case spaces_to_underscores separate_words
sparkplug_safe_string s = separate_words (spaces_to_underscores (title_case false (keep_name s)))

abbrev IsName : Text → Type 0
IsName = All (λ c. is_word c ≡ true)

abbrev IsSpacedName : Text → Type 0
IsSpacedName = All (λ c. (is_word c || c == space) ≡ true)

keep_name-IsSpacedName : (s : Text) → IsSpacedName (keep_name s)
unfolding keep_name
keep_name-IsSpacedName [] = tt
keep_name-IsSpacedName (c ∷ s) = ground (arith, keep_name-IsSpacedName s)

title_case-IsSpacedName : (b : Bool) (s : Text) → IsSpacedName s → IsSpacedName (title_case b s)
unfolding title_case upper
title_case-IsSpacedName b [] h = tt
title_case-IsSpacedName b (c ∷ s) (hc, h) = (ground arith, title_case-IsSpacedName (is_word c) s h)

spaces_to_underscores-IsName : (s : Text) → IsSpacedName s → IsName (spaces_to_underscores s)
unfolding spaces_to_underscores
spaces_to_underscores-IsName [] h = tt
spaces_to_underscores-IsName (c ∷ s) (hc, h) = (ground arith, spaces_to_underscores-IsName s h)

separate_words-IsName : (s : Text) → IsName s → IsName (separate_words s)
unfolding separate_words
separate_words-IsName [] h = tt
separate_words-IsName (c ∷ []) h = h
separate_words-IsName (c ∷ d ∷ s) (hc, h) = ground (arith, separate_words-IsName (d ∷ s) h)

-- Whatever the string, the result has only letters, digits and underscores, so it holds no slash.
pub sparkplug_safe_string-IsName :
    (s : Text) → All (λ c. is_word c ≡ true) (sparkplug_safe_string s)
unfolding sparkplug_safe_string
sparkplug_safe_string-IsName s =
    separate_words-IsName _
      (spaces_to_underscores-IsName _ (title_case-IsSpacedName false _ (keep_name-IsSpacedName s)))

safe_tests : (sparkplug_safe_string (codes "my test-device fooBar") ≡ codes "My_Testdevice_Foo_Bar")
unfolding sparkplug_safe_string
safe_tests = refl
