-- ===== src/ConfigDb/Etags.antt =====
-- Entity tags and conditional requests (acs-configdb/lib/etags.js).
pub mod Conditions
use mathlib.Core.List.{map}
use amrc_connectivity_stack.Prelude.{
  ℕ, ◌≡◌, refl, Bool, true, false, not, ◌&&◌, ◌||◌, List, [], ◌∷◌, ◌++◌, Option, none, some,
  if◌then◌else◌, leb, ◌==◌, nat_eq, list_eq, option_eq, every,
}
use amrc_connectivity_stack.Text.{Text, codes}
use amrc_connectivity_stack.Text.Spans.{is_empty, take_while, drop_while}

-- The opaque string of a resource that does not exist is `none`.
pub record ETag : Type 0 where
  pub opaque : Option Text
  pub weak : Bool

-- `[\x21\x23-\x7e\x90-\xff]`
abbrev pub is_opaque : ℕ → Bool
is_opaque c = c == 33 || (leb 35 c && leb c 126) || (leb 144 c && leb c 255)

abbrev pub quote : ℕ
quote = b'"'

-- A tag as the API prints it.
abbrev pub quoted : Text → Text
quoted s = quote ∷ (s ++ quote ∷ [])

-- What follows the opening quote: a class without the quote, so the longest run is the only match.
unfoldable pub parse_quoted : Bool → Text → Option ETag
parse_quoted weak s =
    if drop_while is_opaque s == quote ∷ []
    then some (record { opaque = some (take_while is_opaque s); weak = weak })
    else none

-- `ETag.parse`
unfoldable pub parse_etag : Text → Option ETag
unfolding parse_quoted
parse_etag [] = none
parse_etag (c ∷ []) = none
parse_etag (c ∷ d ∷ []) = if c == quote then parse_quoted false (d ∷ []) else none
parse_etag (c ∷ d ∷ e ∷ s) =
    if c == quote
    then parse_quoted false (d ∷ e ∷ s)
    else if c == b'W' && d == b'/' && e == quote
    then parse_quoted true s
    else none

unfoldable pub strong_compare : ETag → ETag → Bool
strong_compare t u = if t.weak || u.weak then false else t.opaque == u.opaque

unfoldable pub weak_compare : ETag → ETag → Bool
weak_compare t u = t.opaque == u.opaque

abbrev pub is_blank : ℕ → Bool
is_blank c = c == b' '

-- Without the blanks at the end.
abbrev drop_end : Text → Text
drop_end [] = []
drop_end (c ∷ s) = let rest = drop_end s in if is_blank c && is_empty rest then [] else c ∷ rest

abbrev pub onto_first : ℕ → List Text → List Text
onto_first c [] = (c ∷ []) ∷ []
onto_first c (p ∷ ps) = (c ∷ p) ∷ ps

unfoldable pub split_commas : Text → List Text
split_commas [] = [] ∷ []
split_commas (c ∷ s) =
    let rest = split_commas s in if c == b',' then [] ∷ rest else onto_first c rest

-- `split(/ *, */)`: the blanks around a comma belong to it.
abbrev trim_tail : List Text → List Text
trim_tail [] = []
trim_tail (p ∷ []) = drop_while is_blank p ∷ []
trim_tail (p ∷ q ∷ ps) = drop_end (drop_while is_blank p) ∷ trim_tail (q ∷ ps)

unfoldable pub tokens : List Text → List Text
tokens [] = []
tokens (p ∷ []) = p ∷ []
tokens (p ∷ q ∷ ps) = drop_end p ∷ trim_tail (q ∷ ps)

-- All tags, or null if one is malformed.
unfoldable pub parse_all : List Text → Option (List ETag)
unfolding parse_etag
parse_all [] = some []
parse_all (p ∷ ps) = elim (parse_etag p) [
  | none ↦ none
  | some t ↦ elim (parse_all ps) [ none ↦ none | some ts ↦ some (t ∷ ts) ]
]

unfoldable pub parse_etags : Text → Option (List ETag)
unfolding parse_all tokens split_commas
parse_etags header = parse_all (tokens (split_commas header))

-- `header?.replace(/^ *| *$/, "")`, which replaces the first match only.
unfoldable pub trim : Option Text → Option Text
trim none = none
trim (some s) = some (drop_while is_blank s)

abbrev any : (ETag → Bool) → List ETag → Bool
any p [] = false
any p (t ∷ ts) = p t || any p ts

abbrev exists : ETag → Bool
exists t = not (t.opaque == none)

-- `If-Match`; `none` lets the request go on.
unfoldable pub check_match : ETag → Option Text → Option ℕ
check_match etag none = none
check_match etag (some h) =
    if h == codes "*" then (if exists etag then none else some 412) else elim (parse_etags h) [
      | none ↦ some 400
      | some tags ↦ if any (λ t. strong_compare t etag) tags then none else some 412
    ]

-- `If-None-Match`
unfoldable pub check_none_match : ETag → Option Text → Option ℕ
check_none_match etag none = none
check_none_match etag (some h) =
    if h == codes "*" then (if exists etag then some 412 else none) else elim (parse_etags h) [
      | none ↦ some 400
      | some tags ↦ if any (λ t. weak_compare t etag) tags then some 412 else none
    ]

-- The tag of the resource is strong, as `checker` has it.
unfoldable pub check_match_headers : Option Text → Option Text → Option Text → Option ℕ
check_match_headers if_match if_none_match opaque' =
    let etag : ETag = record { opaque = opaque'; weak = false } in
    elim (check_match etag (trim if_match)) [
      | none ↦ check_none_match etag (trim if_none_match)
      | some st ↦ some st
    ]
