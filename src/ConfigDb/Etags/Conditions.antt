-- ===== src/ConfigDb/Etags/Conditions.antt =====
-- Conditional requests on one tag.
use amrc_connectivity_stack.Prelude.{
  ℕ, ◌≡◌, refl, ◌∙◌, ap, Bool, true, false, not, List, [], ◌∷◌, ◌++◌, Option, none, some, arith,
  if◌then◌else◌, ◌==◌, nat_eq, list_eq, option_eq, every, append_assoc,
}
use amrc_connectivity_stack.Text.{Text}
use amrc_connectivity_stack.Text.Spans.{drop_while, take_while-append, drop_while-append}
use amrc_connectivity_stack.ConfigDb.Etags.{
  ETag, is_opaque, quote, quoted, parse_quoted, parse_etag, strong_compare, weak_compare, is_blank,
  tokens, parse_all, parse_etags, trim, check_match, check_none_match, check_match_headers,
  split_commas,
}

-- No comma: `split` would cut it.
abbrev no_comma : ℕ → Bool
no_comma c = not (c == b',')

parse_quoted-quoted :
    (s : Text)
    → every is_opaque s ≡ true
    → parse_quoted false (s ++ quote ∷ []) ≡ some (record { opaque = some s; weak = false })
unfolding parse_quoted
parse_quoted-quoted s h = rw (
  drop_while-append is_opaque s (quote ∷ []) h refl,
  take_while-append is_opaque s (quote ∷ []) h refl,
)

parse_etag-quoted :
    (s : Text)
    → every is_opaque s ≡ true
    → parse_etag (quoted s) ≡ some (record { opaque = some s; weak = false })
unfolding parse_etag
parse_etag-quoted [] h = refl
parse_etag-quoted (c ∷ []) h = parse_quoted-quoted (c ∷ []) h
parse_etag-quoted (c ∷ d ∷ s) h = parse_quoted-quoted (c ∷ d ∷ s) h

split_commas-one : (s : Text) → every no_comma s ≡ true → split_commas s ≡ s ∷ []
unfolding split_commas
split_commas-one [] h = refl
split_commas-one (c ∷ s) h = ground (arith, split_commas-one s)

every-no_comma : (s : Text) → every no_comma s ≡ true → every no_comma (s ++ quote ∷ []) ≡ true
every-no_comma [] h = refl
every-no_comma (c ∷ s) h = ground (arith, every-no_comma s)

-- An opaque string that can stand in a list of tags.
abbrev pub IsOpaque : Text → Type 0
IsOpaque s = (every is_opaque s ≡ true) × (every no_comma s ≡ true)

abbrev as_list : Option ETag → Option (List ETag)
as_list o = elim o [ none ↦ none | some t ↦ some (t ∷ []) ]

parse_etags-quoted :
    (s : Text)
    → IsOpaque s
    → parse_etags (quoted s) ≡ some (record { opaque = some s; weak = false } ∷ [])
unfolding parse_etags tokens parse_all
parse_etags-quoted s (h, k) =
    let one = split_commas-one (quoted s) (ground (arith, every-no_comma s k)) in
    ap (λ ps. parse_all (tokens ps)) one ∙ ap as_list (parse_etag-quoted s h)

module _ (s : Text) (o : Option Text) (h : IsOpaque s) where
  abbrev current : ETag
  current = record { opaque = o; weak = false }

  check_match-quoted :
      check_match current (some (quoted s)) ≡ (if some s == o then none else some 412)
  unfolding check_match strong_compare
  check_match-quoted = ground (arith, parse_etags-quoted s h)

  check_none_match-quoted :
      check_none_match current (some (quoted s)) ≡ (if some s == o then some 412 else none)
  unfolding check_none_match weak_compare
  check_none_match-quoted = ground (arith, parse_etags-quoted s h)

  no_match : check_match current none ≡ none
  unfolding check_match
  no_match = refl

  no_none_match : check_none_match current none ≡ none
  unfolding check_none_match
  no_none_match = refl

  -- A write with one tag under If-Match goes on exactly if that is the tag of what is there, and is
  -- 412 else; with the tag under If-None-Match it is the other way round.
  pub check_match_headers-quoted :
      (check_match_headers (some (quoted s)) none o ≡ (if some s == o then none else some 412))
      × (check_match_headers none (some (quoted s)) o ≡ (if some s == o then some 412 else none))
  unfolding check_match_headers trim
  check_match_headers-quoted = (
    ground (arith, check_match-quoted, no_none_match),
    ground (arith, check_none_match-quoted, no_match),
  )

-- `trim` keeps whatever follows a character that is no blank, so also blanks at the end.
trim-append :
    (s t : Text) (c : ℕ)
    → is_blank c ≡ false
    → trim (some (s ++ c ∷ t)) ≡ some (drop_while is_blank (s ++ c ∷ []) ++ t)
unfolding trim
trim-append s t c h = ap some (drop_while-keeps s)
  where
    drop_while-keeps :
        (u : Text) → drop_while is_blank (u ++ c ∷ t) ≡ drop_while is_blank (u ++ c ∷ []) ++ t
    drop_while-keeps [] = rw h
    drop_while-keeps (d ∷ u) = ground (arith, drop_while-keeps u, append_assoc u (c ∷ []) t)
