-- ===== src/HttpAuth/Header.antt =====
-- What `FplusHttpAuth` reads of an `Authorization` header: its scheme and credentials (`Auth_rx`),
-- the user and password of Basic, and the structure of a JWT (lib/js-service-api/lib/jwt.js).
pub mod Language
use amrc_connectivity_stack.Prelude.{
  ℕ, ◌≡◌, refl, Bool, true, false, not, ◌&&◌, ◌||◌, List, [], ◌∷◌, ◌++◌, Option, none, some,
  if◌then◌else◌, ◌==◌, nat_eq, list_eq, has, every,
}
use amrc_connectivity_stack.Text.{Text, codes, take_line}
use amrc_connectivity_stack.Text.Spans.{
  is_upper, is_lower, is_digit, is_empty, take_while, drop_while,
}

abbrev pub is_alpha : ℕ → Bool
is_alpha c = is_upper c || is_lower c

abbrev pub is_space : ℕ → Bool
is_space c = c == b' '

-- `[A-Za-z0-9._~+/=-]`
abbrev pub is_cred : ℕ → Bool
is_cred c =
    is_alpha c
    || is_digit c
    || c == b'.'
    || c == b'_'
    || c == b'~'
    || c == b'+'
    || c == b'/'
    || c == b'='
    || c == b'-'

-- `auth.match(Auth_rx)`, without the whole match. Two classes that follow each other share no code
-- unit, so the longest runs are the only match.
unfoldable pub match_auth : Text → Option (Text × Text)
match_auth s =
    let scheme = take_while is_alpha s in
    let gap = take_while is_space (drop_while is_alpha s) in
    let creds = drop_while is_space (drop_while is_alpha s) in
    if is_empty scheme || is_empty gap || is_empty creds || not (every is_cred creds)
    then none
    else some (scheme, creds)

abbrev pub not_colon : ℕ → Bool
not_colon c = not (c == b':')

-- What follows the user must be a colon and a password; `.+` stops at a line end.
unfoldable pub match_password : Text → Text → Option (Text × Text)
match_password user [] = none
match_password user (c ∷ s) = if is_empty (take_line s) then none else some (user, take_line s)

-- `match(/^([^:]+):(.+)/)`, without the whole match.
unfoldable pub match_basic : Text → Option (Text × Text)
unfolding match_password
match_basic s =
    let user = take_while not_colon s in
    if is_empty user then none else match_password user (drop_while not_colon s)

-- `[A-Za-z0-9_-]`
abbrev pub is_base64url : ℕ → Bool
is_base64url c = is_alpha c || is_digit c || c == b'_' || c == b'-'

abbrev pub dot : ℕ
dot = b'.'

unfoldable pub after_dot : (Text → Bool) → Text → Bool
after_dot rest [] = false
after_dot rest (c ∷ s) = c == dot && rest s

abbrev pub last_segment : Text → Bool
last_segment s = not (is_empty s) && every is_base64url s

unfoldable pub segment : (Text → Bool) → Text → Bool
unfolding after_dot
segment rest s =
    not (is_empty (take_while is_base64url s)) && after_dot rest (drop_while is_base64url s)

-- `JWT_DOT_RX.test`
unfoldable pub is_jwt_shape : Text → Bool
unfolding segment
is_jwt_shape s = segment (segment last_segment) s

-- `has_alg` decodes a segment and reads it as JSON with a string `alg`; it is false where that
-- throws.
unfoldable pub looks_like_jwt : (Text → Bool) → Text → Bool
unfolding is_jwt_shape
looks_like_jwt has_alg creds =
    is_jwt_shape creds && has_alg (take_while (λ c. not (c == dot)) creds)
