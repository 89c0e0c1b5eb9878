-- ===== src/HttpAuth/Server.antt =====
-- Class `FplusHttpAuth`: the schemes of HTTP authentication and the session tokens.
pub mod Tokens
pub mod Soundness
pub mod Sessions
use amrc_connectivity_stack.Prelude.{
  ℕ, ◌+◌, ◌*◌, ◌≡◌, refl, Bool, true, false, not, ◌&&◌, List, [], ◌∷◌, ◌++◌, Option, none, some,
  if◌then◌else◌, ltb, ◌==◌, nat_eq, list_eq, has, lookup, put, remove,
}
use amrc_connectivity_stack.Text.{Text, codes}
use amrc_connectivity_stack.HttpAuth.Header.{match_auth, match_basic, looks_like_jwt}

-- A GSS server context after `acceptSecContext`, and the token for the client in base64.
pub record SecContext : Type 0 where
  pub client_name : Text
  pub is_complete : Bool
  pub server_token : Text

-- What is called and is not the server's own: base64, GSS, and the verifier of JWTs. `none` is an
-- exception; a JWT's payload is known by its claim `fp_principal_uuid`.
pub record Outside : Type 0 where
  pub atob : Text → Option Text
  pub verify_credentials : Text → Text → Bool
  pub accept_sec_context : Text → Option SecContext
  pub has_alg : Text → Bool
  pub verify_jwt : Text → Option (Option Text)

pub record Settings : Type 0 where
  pub realm : Text
  pub public_path : Option (Text → Bool)
  pub session_length : ℕ
  pub accepts_jwt : Bool

abbrev pub default_session_length : ℕ
default_session_length = 3 * 3600 * 1000

-- In milliseconds.
abbrev pub date_fuzz : ℕ
date_fuzz = 1 * 60 * 1000

-- The principal is `req.auth`, null on a public path.
pub record Session : Type 0 where
  pub principal : Option Text
  pub expiry : ℕ

abbrev pub Tokens : Type 0
Tokens = List (Text × Session)

pub record Request : Type 0 where
  pub authorization : Option Text
  pub path : Text

-- What a scheme gives: the client, the raw JWT for other services, and the header of Negotiate.
pub record Client : Type 0 where
  pub principal : Option Text
  pub jwt : Option Text
  pub negotiate : Option Text

-- 401, or the next handler with `req.auth` set.
pub data Answer : Type 0 where
  unauthorized : Answer
  next : Client → Answer

abbrev pub client_of : Option Text → Client
client_of p = record { principal = p; jwt = none; negotiate = none }

unfoldable pub client_name : Text → Text → Text
client_name realm user = if has b'@' user then user else user ++ b'@' ∷ realm

unfoldable pub auth_basic : Outside → Text → Text → Option Client
unfolding match_basic client_name
auth_basic out realm creds = elim (out.atob creds) [
  | none ↦ none
  | some text ↦ elim (match_basic text) [
    | none ↦ none
    | some (user, pass) ↦
        let client = client_name realm user in
        if out.verify_credentials client pass then some (client_of (some client)) else none
  ]
]

unfoldable pub auth_gssapi : Outside → Text → Option Client
auth_gssapi out creds = elim (out.accept_sec_context creds) [
  | none ↦ none
  | some ctx ↦
      if ctx.is_complete
      then some (record {
        principal = some ctx.client_name;
        jwt = none;
        negotiate = some (codes "Negotiate " ++ ctx.server_token);
      })
      else none
]

-- An empty claim is no principal.
abbrev pub claim : Option Text → Option Text
claim none = none
claim (some []) = none
claim (some (c ∷ s)) = some (c ∷ s)

unfoldable pub auth_jwt : Outside → Text → Option Client
auth_jwt out creds = elim (out.verify_jwt creds) [
  | none ↦ none
  | some payload ↦ elim (claim payload) [
    | none ↦ none
    | some p ↦ some (record { principal = some p; jwt = some creds; negotiate = none })
  ]
]

-- A session by its token, deleted if it has run out.
unfoldable pub use_token : Tokens → Text → ℕ → Option Client × Tokens
use_token tokens creds now = elim (lookup creds tokens) [
  | none ↦ (none, tokens)
  | some s ↦
      if ltb s.expiry (now + date_fuzz)
      then (none, remove creds tokens)
      else (some (client_of s.principal), tokens)
]

unfoldable pub auth_bearer : Outside → Settings → Tokens → Text → ℕ → Option Client × Tokens
auth_bearer out set tokens creds now =
    if set.accepts_jwt && looks_like_jwt out.has_alg creds
    then (auth_jwt out creds, tokens)
    else use_token tokens creds now

unfoldable pub by_scheme : Outside → Settings → Tokens → Text × Text → ℕ → Option Client × Tokens
by_scheme out set tokens (scheme, creds) now =
    if scheme == codes "Basic"
    then (auth_basic out set.realm creds, tokens)
    else if scheme == codes "Negotiate"
    then (auth_gssapi out creds, tokens)
    else if scheme == codes "Bearer"
    then auth_bearer out set tokens creds now
    else (none, tokens)

-- An empty header is no header.
abbrev pub header : Option Text → Option Text
header none = none
header (some []) = none
header (some (c ∷ s)) = some (c ∷ s)

abbrev pub answer : Option Client × Tokens → Answer × Tokens
answer (none, tokens) = (unauthorized, tokens)
answer (some c, tokens) = (next c, tokens)

abbrev pub is_public : Settings → Text → Bool
is_public set path = elim set.public_path [ none ↦ false | some test ↦ test path ]

unfoldable pub auth : Outside → Settings → Tokens → Request → ℕ → Answer × Tokens
auth out set tokens req now = elim (header req.authorization) [
  | none ↦ (if is_public set req.path then next (client_of none) else unauthorized, tokens)
  | some h ↦ elim (match_auth h) [
    | none ↦ (unauthorized, tokens)
    | some m ↦ answer (by_scheme out set tokens m now)
  ]
]

-- `token`, with the random token that it makes.
unfoldable pub issue_token : Settings → Option Text → Text → ℕ → Tokens → Tokens
issue_token set principal token now tokens =
    put token (record { principal = principal; expiry = now + set.session_length }) tokens

-- A request to authenticate, or a token that is issued, with its time.
pub data Event : Type 0 where
  request : Request → ℕ → Event
  issue : Option Text → Text → ℕ → Event

abbrev pub step : Outside → Settings → Tokens → Event → Tokens
step out set tokens (request req now) = (auth out set tokens req now).1
step out set tokens (issue p token now) = issue_token set p token now tokens

-- The tokens after a history, the latest event first.
abbrev pub after : Outside → Settings → List Event → Tokens
after out set [] = []
after out set (e ∷ past) = step out set (after out set past) e
