-- ===== src/Sparkplug/SafeString/Idempotent.antt =====
-- A safe name is safe already.
use amrc_connectivity_stack.Prelude.{
  ℕ, ◌≡◌, refl, ap, ◌∙◌, inl, inr, true, false, ◌&&◌, [], ◌∷◌, arith, nat_eq, Bool-cases,
}
use amrc_connectivity_stack.Text.{Text}
use amrc_connectivity_stack.Sparkplug.SafeString.{
  is_upper, is_lower, keep_name, upper, title_case, spaces_to_underscores, separate_words,
  sparkplug_safe_string, IsName, sparkplug_safe_string-IsName,
}

-- No lower case letter stands directly before an upper case one.
abbrev IsSeparated : Text → Type 0
IsSeparated [] = Unit
IsSeparated (c ∷ []) = Unit
IsSeparated (c ∷ d ∷ s) = ((is_lower c && is_upper d) ≡ false) × IsSeparated (d ∷ s)

-- The first code unit is no lower case letter.
abbrev IsTitled : Text → Type 0
IsTitled [] = Unit
IsTitled (c ∷ s) = is_lower c ≡ false

separate_words_cons : (d : ℕ) (s : Text) → (r : Text) × (separate_words (d ∷ s) ≡ d ∷ r)
unfolding separate_words
separate_words_cons d [] = ([], refl)
separate_words_cons d (e ∷ s) = elim (Bool-cases (is_lower d && is_upper e)) [
  | inl h ↦ (b'_' ∷ separate_words (e ∷ s), rw h)
  | inr h ↦ (separate_words (e ∷ s), rw h)
]

separate_words-IsSeparated : (s : Text) → IsSeparated (separate_words s)
unfolding separate_words
separate_words-IsSeparated [] = tt
separate_words-IsSeparated (c ∷ []) = tt
separate_words-IsSeparated (c ∷ d ∷ s) =
    let (r, e) = separate_words_cons d s in
    let ih : IsSeparated (d ∷ r) = rw e at (separate_words-IsSeparated (d ∷ s)) in
    elim (Bool-cases (is_lower c && is_upper d)) [
      | inl h ↦ rw (h, e) (ground arith)
      | inr h ↦ rw (h, e) (h, ih)
    ]

separate_words-IsTitled : (s : Text) → IsTitled s → IsTitled (separate_words s)
separate_words-IsTitled [] h = unfold separate_words in tt
separate_words-IsTitled (c ∷ s) h = let (r, e) = separate_words_cons c s in rw e h

title_case-IsTitled : (s : Text) → IsTitled (title_case false s)
unfolding title_case upper
title_case-IsTitled [] = tt
title_case-IsTitled (c ∷ s) = ground arith

spaces_to_underscores-IsTitled : (s : Text) → IsTitled s → IsTitled (spaces_to_underscores s)
unfolding spaces_to_underscores
spaces_to_underscores-IsTitled [] h = tt
spaces_to_underscores-IsTitled (c ∷ s) h = ground arith

-- On a name that is titled and separated no pass changes anything.
keep_name_of_IsName : (s : Text) → IsName s → keep_name s ≡ s
unfolding keep_name
keep_name_of_IsName [] h = refl
keep_name_of_IsName (c ∷ s) (hc, h) = rw hc (ap (c ∷◌) (keep_name_of_IsName s h))

title_case_inside : (s : Text) → IsName s → title_case true s ≡ s
unfolding title_case
title_case_inside [] h = refl
title_case_inside (c ∷ s) (hc, h) = rw hc (ap (c ∷◌) (title_case_inside s h))

title_case_of_IsTitled : (s : Text) → IsName s → IsTitled s → title_case false s ≡ s
unfolding title_case upper
title_case_of_IsTitled [] h t = refl
title_case_of_IsTitled (c ∷ s) (hc, h) t = rw (hc, t) (ap (c ∷◌) (title_case_inside s h))

spaces_to_underscores_of_IsName : (s : Text) → IsName s → spaces_to_underscores s ≡ s
unfolding spaces_to_underscores
spaces_to_underscores_of_IsName [] h = refl
spaces_to_underscores_of_IsName (c ∷ s) (hc, h) =
    ground (arith, spaces_to_underscores_of_IsName s h)

separate_words_of_IsSeparated : (s : Text) → IsSeparated s → separate_words s ≡ s
unfolding separate_words
separate_words_of_IsSeparated [] h = refl
separate_words_of_IsSeparated (c ∷ []) h = refl
separate_words_of_IsSeparated (c ∷ d ∷ s) (hc, h) =
    rw hc (ap (c ∷◌) (separate_words_of_IsSeparated (d ∷ s) h))

safe_of_safe : (s : Text) → IsName s → IsTitled s → IsSeparated s → sparkplug_safe_string s ≡ s
safe_of_safe s n t p =
    unfold sparkplug_safe_string in
    (ap (λ u. separate_words (spaces_to_underscores (title_case false u))) (keep_name_of_IsName s n)
      ∙ ap (λ u. separate_words (spaces_to_underscores u)) (title_case_of_IsTitled s n t)
      ∙ ap separate_words (spaces_to_underscores_of_IsName s n)
      ∙ separate_words_of_IsSeparated s p)

sparkplug_safe_string-IsTitled : (s : Text) → IsTitled (sparkplug_safe_string s)
unfolding sparkplug_safe_string
sparkplug_safe_string-IsTitled s = separate_words-IsTitled _ (
    spaces_to_underscores-IsTitled (title_case false (keep_name s))
      (title_case-IsTitled (keep_name s)))

sparkplug_safe_string-IsSeparated : (s : Text) → IsSeparated (sparkplug_safe_string s)
unfolding sparkplug_safe_string
sparkplug_safe_string-IsSeparated s =
    separate_words-IsSeparated (spaces_to_underscores (title_case false (keep_name s)))

-- Making a name safe a second time changes nothing.
sparkplug_safe_string_idempotent :
    (s : Text) → sparkplug_safe_string (sparkplug_safe_string s) ≡ sparkplug_safe_string s
sparkplug_safe_string_idempotent s =
    safe_of_safe (sparkplug_safe_string s) (sparkplug_safe_string-IsName s)
      (sparkplug_safe_string-IsTitled s) (sparkplug_safe_string-IsSeparated s)
