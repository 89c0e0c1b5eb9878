-- ===== src/HttpAuth/Server/Sessions.antt =====
-- A token from `token`, used as Bearer credentials.
use amrc_connectivity_stack.Prelude.{
  ℕ, ◌+◌, ◌≤◌, ◌<◌, ◌≡◌, refl, ap, ◌∙◌, Bool, true, false, not, ◌||◌, List, [], ◌∷◌, ◌++◌, Option,
  none, some, arith, if◌then◌else◌, ltb, ◌==◌, nat_eq, list_eq, lookup, remove, lookup-remove_self,
  All, every,
}
use amrc_connectivity_stack.Text.{Text, codes}
use amrc_connectivity_stack.Text.Spans.{is_digit, Run, drop_while, every-drop_while, every-imp}
use amrc_connectivity_stack.HttpAuth.Header.{
  is_alpha, is_cred, dot, is_base64url, after_dot, last_segment, segment, is_jwt_shape,
  looks_like_jwt,
}
use amrc_connectivity_stack.HttpAuth.Header.Language.{match_auth_of_parts}
use amrc_connectivity_stack.HttpAuth.Server.{
  Outside, Settings, Session, Tokens, Request, next, unauthorized, client_of, date_fuzz, use_token,
  auth_bearer, by_scheme, answer, auth, Event, after,
}
use amrc_connectivity_stack.HttpAuth.Server.Tokens.{new_session, Spares, lookup-after_issue}

-- The alphabet of `randomBytes(66).toString("base64")`.
abbrev pub is_base64 : ℕ → Bool
is_base64 c = is_alpha c || is_digit c || c == b'+' || c == b'/' || c == b'='

abbrev not_dot : ℕ → Bool
not_dot c = not (c == dot)

after_dot_none : (rest : Text → Bool) (s : Text) → every not_dot s ≡ true → after_dot rest s ≡ false
unfolding after_dot
after_dot_none rest [] h = refl
after_dot_none rest (c ∷ s) h = ground arith

-- Such a token is never taken for a JWT.
looks_like_jwt-base64 :
    (has_alg : Text → Bool) (s : Text) → every is_base64 s ≡ true → looks_like_jwt has_alg s ≡ false
unfolding looks_like_jwt is_jwt_shape segment
looks_like_jwt-base64 has_alg s h =
    let plain =
      every-drop_while is_base64url not_dot s
        (every-imp is_base64 not_dot s (λ c e. ground arith) h) in
    ground (arith, after_dot_none (segment last_segment) (drop_while is_base64url s) plain)

abbrev pub bearer : Text → Text → Request
bearer token path = record {
  authorization = some (codes "Bearer" ++ (codes " " ++ token));
  path = path;
}

module _ (out : Outside) (set : Settings) where
  auth-bearer :
      (ts : Tokens) (token path : Text) (now : ℕ)
      → Run is_base64 token
      → auth out set ts (bearer token path) now ≡ answer (use_token ts token now)
  unfolding auth by_scheme auth_bearer
  auth-bearer ts token path now (full, h) =
      let found =
        match_auth_of_parts (codes "Bearer") (codes " ") token (refl, refl) (refl, refl)
          (full, every-imp is_base64 is_cred token (λ c e. ground arith) h) in
      ground (arith, found, looks_like_jwt-base64 out.has_alg token h)

  use_token_cases :
      (ts : Tokens) (token : Text) (now : ℕ) (s : Session)
      → lookup token ts ≡ some s
      → use_token ts token now ≡ (
          if ltb s.expiry (now + date_fuzz)
          then (none, remove token ts)
          else (some (client_of s.principal), ts))
  unfolding use_token
  use_token_cases ts token now s e = rw (e, use_token)

  -- A token is good for its principal from the moment it is issued, whatever happens to others,
  -- until one minute before it runs out.
  pub auth-issue_token :
      (later past : List Event) (p : Option Text) (token path : Text) (issued now : ℕ)
      → Run is_base64 token
      → All (Spares out set token (issued + set.session_length)) later
      → now + date_fuzz ≤ issued + set.session_length
      → (auth out set
          (after out set (later ++ Event.issue p token issued ∷ past))
          (bearer token path)
          now).0
        ≡ next (client_of p)
  auth-issue_token later past p token path issued now h spares live =
      let ts = after out set (later ++ Event.issue p token issued ∷ past) in
      let fresh : ltb (issued + set.session_length) (now + date_fuzz) ≡ false = ground arith in
      let found : use_token ts token now ≡ (some (client_of p), ts) =
        use_token_cases ts token now (new_session out set p issued)
          (lookup-after_issue out set later past p token issued spares)
        ∙ rw fresh in
      ap (λ r. r.0) (auth-bearer ts token path now h ∙ ap answer found)

  -- After that it is refused, and no longer kept.
  auth-expired :
      (ts : Tokens) (s : Session) (token path : Text) (now : ℕ)
      → Run is_base64 token
      → lookup token ts ≡ some s
      → s.expiry < now + date_fuzz
      → ((auth out set ts (bearer token path) now).0 ≡ unauthorized)
        × (lookup token (auth out set ts (bearer token path) now).1 ≡ none)
  auth-expired ts s token path now h e old =
      let late : ltb s.expiry (now + date_fuzz) ≡ true = ground arith in
      let found : use_token ts token now ≡ (none, remove token ts) =
        use_token_cases ts token now s e ∙ rw late in
      rw (auth-bearer ts token path now h ∙ ap answer found) (refl, lookup-remove_self token ts)
