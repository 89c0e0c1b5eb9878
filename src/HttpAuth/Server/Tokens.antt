-- ===== src/HttpAuth/Server/Tokens.antt =====
-- The life of a session token, from `token` to `auth_bearer`.
use amrc_connectivity_stack.Prelude.{
  ℕ, ◌+◌, ◌≤◌, ◌≡◌, refl, sym, ap, ◌∙◌, subst, ◌⊎◌, true, false, ◌&&◌, List, [], ◌∷◌, ◌++◌, Option,
  none, some, arith, if◌then◌else◌, ltb, ◌==◌, nat_eq, list_eq, ==_iff, ==_self, lookup, remove,
  lookup-put, lookup-remove_self, lookup-remove_other, Bool-cases, Option-cases, inl, inr, In, All,
}
use amrc_connectivity_stack.Text.{Text, codes}
use amrc_connectivity_stack.HttpAuth.Header.{looks_like_jwt, match_auth}
use amrc_connectivity_stack.HttpAuth.Server.{
  Outside, Settings, Session, Tokens, Request, Client, date_fuzz, use_token, auth_bearer, by_scheme,
  header, answer, auth, issue_token, Event, after,
}

module _ (out : Outside) (set : Settings) where
  -- What a request does to the tokens: nothing, or the end of one that has run out.
  abbrev Ends : ℕ → Text → Tokens → Tokens → Type 0
  Ends now creds ts ts' =
      (ts' ≡ ts)
      ⊎ ((s : Session) × (lookup creds ts ≡ some s)
          × (ltb s.expiry (now + date_fuzz) ≡ true)
          × (ts' ≡ remove creds ts))

  use_token-Ends :
      (ts : Tokens) (creds : Text) (now : ℕ) → Ends now creds ts (use_token ts creds now).1
  unfolding use_token
  use_token-Ends ts creds now = elim (Option-cases (lookup creds ts)) [
    | inl e ↦ inl (rw (e, use_token))
    | inr (s, e) ↦ elim (Bool-cases (ltb s.expiry (now + date_fuzz))) [
      | inl old ↦ inr (s, e, old, rw (e, old, use_token))
      | inr live ↦ inl (rw (e, live, use_token))
    ]
  ]

  auth_bearer-Ends :
      (ts : Tokens) (creds : Text) (now : ℕ)
      → Ends now creds ts (auth_bearer out set ts creds now).1
  unfolding auth_bearer
  auth_bearer-Ends ts creds now =
      elim (Bool-cases (set.accepts_jwt && looks_like_jwt out.has_alg creds)) [
        | inl e ↦ rw e (inl refl)
        | inr e ↦ rw e (use_token-Ends ts creds now)
      ]

  by_scheme-Ends :
      (ts : Tokens) (scheme creds : Text) (now : ℕ)
      → Ends now creds ts (by_scheme out set ts (scheme, creds) now).1
  unfolding by_scheme
  by_scheme-Ends ts scheme creds now = elim (Bool-cases (scheme == codes "Basic")) [
    | inl e ↦ rw e (inl refl)
    | inr e ↦ rw e (elim (Bool-cases (scheme == codes "Negotiate")) [
      | inl e ↦ rw e (inl refl)
      | inr e ↦ rw e (elim (Bool-cases (scheme == codes "Bearer")) [
        | inl e ↦ rw e (auth_bearer-Ends ts creds now)
        | inr e ↦ rw e (inl refl)
      ])
    ])
  ]

  answer-tokens : (r : Option Client × Tokens) → (answer r).1 ≡ r.1
  answer-tokens (none, ts) = refl
  answer-tokens (some c, ts) = refl

  auth-Ends :
      (ts : Tokens) (req : Request) (now : ℕ)
      → (creds : Text) × Ends now creds ts (auth out set ts req now).1
  unfolding auth
  auth-Ends ts req now = elim (Option-cases (header req.authorization)) [
    | inl e ↦ ([], inl (rw (e, auth)))
    | inr (h, e) ↦ elim (Option-cases (match_auth h)) [
      | inl f ↦ ([], inl (rw (e, f, auth)))
      | inr ((k, c), f) ↦ (
        c,
        subst (Ends now c ts)
            (sym (rw (e, f, auth) (answer-tokens (by_scheme out set ts (k, c) now))))
            (by_scheme-Ends ts k c now),
      )
    ]
  ]

  -- A session that is there after a request was there before it.
  auth-lookup :
      (ts : Tokens) (req : Request) (now : ℕ) (token : Text) (s : Session)
      → lookup token (auth out set ts req now).1 ≡ some s
      → lookup token ts ≡ some s
  auth-lookup ts req now token s h =
      let (creds, ends) = auth-Ends ts req now in
      elim ends [
        | inl same ↦ sym (ap (lookup token) same) ∙ h
        | inr (x, e, old, gone) ↦ elim (Bool-cases (creds == token)) [
          | inl hit ↦ let k = (==_iff creds token).0 hit in cc (lookup-remove_self creds ts)
          | inr miss ↦ sym (ap (lookup token) gone ∙ lookup-remove_other creds token ts miss) ∙ h
        ]
      ]

  -- A session that has not run out is kept.
  auth-keeps :
      (ts : Tokens) (req : Request) (now : ℕ) (token : Text) (s : Session)
      → now + date_fuzz ≤ s.expiry
      → lookup token ts ≡ some s
      → lookup token (auth out set ts req now).1 ≡ some s
  auth-keeps ts req now token s live h =
      let (creds, ends) = auth-Ends ts req now in
      elim ends [
        | inl same ↦ ap (lookup token) same ∙ h
        | inr (x, e, old, gone) ↦ elim (Bool-cases (creds == token)) [
          | inl hit ↦
              let k = (==_iff creds token).0 hit in
              let t = sym e ∙ ap (λ c. lookup c ts) k ∙ h in absurd (ground (arith, t))
          | inr miss ↦ ap (lookup token) gone ∙ lookup-remove_other creds token ts miss ∙ h
        ]
      ]

  abbrev pub new_session : Option Text → ℕ → Session
  new_session p now = record { principal = p; expiry = now + set.session_length }

  issue_token-lookup :
      (p : Option Text) (k token : Text) (now : ℕ) (ts : Tokens)
      → lookup token (issue_token set p k now ts)
        ≡ (if k == token then some (new_session p now) else lookup token ts)
  unfolding issue_token
  issue_token-lookup p k token now ts = lookup-put k token (new_session p now) ts

  -- A session that is there was issued, to its principal, and lives as long as the settings say.
  pub lookup-after :
      (events : List Event) (token : Text) (s : Session)
      → lookup token (after out set events) ≡ some s
      → (now : ℕ) × In (Event.issue s.principal token now) events
        × (s.expiry ≡ now + set.session_length)
  lookup-after [] token s h = cc
  lookup-after (Event.request req now ∷ past) token s h =
      let (t, i, e) =
        lookup-after past token s (auth-lookup (after out set past) req now token s h) in
      (t, inr i, e)
  lookup-after (Event.issue p k now ∷ past) token s h =
      let both = sym (issue_token-lookup p k token now (after out set past)) ∙ h in
      elim (Bool-cases (k == token)) [
        | inl hit ↦
            let same : new_session p now ≡ s = ground (arith, both, hit) in
            let key = (==_iff k token).0 hit in
            (now, inl (cc (ap (λ r. r.principal) same, key)), ground (arith, same))
        | inr miss ↦
            let (t, i, e) = lookup-after past token s (ground (arith, both, miss)) in (t, inr i, e)
      ]

  -- Events that neither issue the token again nor happen after it has run out.
  abbrev pub Spares : Text → ℕ → Event → Type 0
  Spares token expiry (Event.request req now) = now + date_fuzz ≤ expiry
  Spares token expiry (Event.issue p k now) = (k == token) ≡ false

  pub lookup-after_issue :
      (later past : List Event) (p : Option Text) (token : Text) (now : ℕ)
      → All (Spares token (now + set.session_length)) later
      → lookup token (after out set (later ++ Event.issue p token now ∷ past))
        ≡ some (new_session p now)
  lookup-after_issue [] past p token now h =
      issue_token-lookup p token token now (after out set past) ∙ rw (==_self token)
  lookup-after_issue (Event.request req t ∷ later) past p token now (hx, h) =
      auth-keeps (after out set (later ++ Event.issue p token now ∷ past)) req t token _ hx
        (lookup-after_issue later past p token now h)
  lookup-after_issue (Event.issue q k t ∷ later) past p token now (hx, h) =
      issue_token-lookup q k token t (after out set (later ++ Event.issue p token now ∷ past))
      ∙ rw hx (lookup-after_issue later past p token now h)
