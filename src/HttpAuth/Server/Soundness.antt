-- ===== src/HttpAuth/Server/Soundness.antt =====
-- What stands behind every request that `auth` lets through.
use amrc_connectivity_stack.Prelude.{
  ℕ, ◌+◌, ◌≤◌, ◌≡◌, ap, ◌∙◌, subst, true, ◌&&◌, List, [], ◌∷◌, ◌++◌, Option, none, some, arith, ltb,
  ◌==◌, nat_eq, list_eq, ==_iff, lookup, Bool-cases, Option-cases, inl, inr, In,
}
use amrc_connectivity_stack.Text.{Text, codes}
use amrc_connectivity_stack.HttpAuth.Header.{match_auth, match_basic, looks_like_jwt}
use amrc_connectivity_stack.HttpAuth.Server.{
  Outside, Settings, SecContext, Tokens, Request, Client, next, client_of, client_name, date_fuzz,
  auth_basic, auth_gssapi, claim, auth_jwt, use_token, auth_bearer, by_scheme, header, answer,
  is_public, auth, Event, after,
}
use amrc_connectivity_stack.HttpAuth.Server.Tokens.{lookup-after}

module _ (out : Outside) (set : Settings) where
  -- The header names a scheme, with its credentials.
  abbrev pub Presents : Request → Text → Text → Type 0
  Presents req scheme creds =
      (h : Text) × (header req.authorization ≡ some h) × (match_auth h ≡ some (scheme, creds))

  -- Why a client may be let through, after a history of events.
  pub data Justified (events : List Event) (req : Request) (now : ℕ) : Client → Type 0 where
    open_path :
        header req.authorization ≡ none
        → is_public set req.path ≡ true
        → Justified events req now (client_of none)
    password :
        (creds text user pass : Text)
        → Presents req (codes "Basic") creds
        → out.atob creds ≡ some text
        → match_basic text ≡ some (user, pass)
        → out.verify_credentials (client_name set.realm user) pass ≡ true
        → Justified events req now (client_of (some (client_name set.realm user)))
    kerberos :
        (creds : Text) (ctx : SecContext)
        → Presents req (codes "Negotiate") creds
        → out.accept_sec_context creds ≡ some ctx
        → ctx.is_complete ≡ true
        → Justified events req now (record {
          principal = some ctx.client_name;
          jwt = none;
          negotiate = some (codes "Negotiate " ++ ctx.server_token);
        })
    json_web_token :
        (creds p : Text)
        → Presents req (codes "Bearer") creds
        → set.accepts_jwt ≡ true
        → looks_like_jwt out.has_alg creds ≡ true
        → out.verify_jwt creds ≡ some (some p)
        → Justified events req now
            (record { principal = some p; jwt = some creds; negotiate = none })
    session :
        (creds : Text) (p : Option Text) (issued : ℕ)
        → Presents req (codes "Bearer") creds
        → In (Event.issue p creds issued) events
        → now + date_fuzz ≤ issued + set.session_length
        → Justified events req now (client_of p)

  module _ (events : List Event) (req : Request) (now : ℕ) where
    abbrev J : Client → Type 0
    J = Justified events req now

    auth_basic-Justified :
        (creds : Text) (c : Client)
        → Presents req (codes "Basic") creds
        → auth_basic out set.realm creds ≡ some c
        → J c
    unfolding auth_basic
    auth_basic-Justified creds c shown h = elim (Option-cases (out.atob creds)) [
      | inl e ↦ absurd (ground (arith, h, e))
      | inr (text, e) ↦ elim (Option-cases (match_basic text)) [
        | inl f ↦ absurd (ground (arith, h, e, f))
        | inr ((user, pass), f) ↦
            elim (Bool-cases (out.verify_credentials (client_name set.realm user) pass)) [
              | inl g ↦
                  subst J (ground (arith, h, e, f, g))
                    (Justified.password creds text user pass shown e f g)
              | inr g ↦ absurd (ground (arith, h, e, f, g))
            ]
      ]
    ]

    auth_gssapi-Justified :
        (creds : Text) (c : Client)
        → Presents req (codes "Negotiate") creds
        → auth_gssapi out creds ≡ some c
        → J c
    unfolding auth_gssapi
    auth_gssapi-Justified creds c shown h = elim (Option-cases (out.accept_sec_context creds)) [
      | inl e ↦ absurd (ground (arith, h, e))
      | inr (ctx, e) ↦ elim (Bool-cases ctx.is_complete) [
        | inl f ↦ subst J (ground (arith, h, e, f)) (Justified.kerberos creds ctx shown e f)
        | inr f ↦ absurd (ground (arith, h, e, f))
      ]
    ]

    claim-some : (o : Option Text) (p : Text) → claim o ≡ some p → o ≡ some p
    claim-some none p h = cc
    claim-some (some []) p h = cc
    claim-some (some (c ∷ s)) p h = h

    auth_jwt-Justified :
        (creds : Text) (c : Client)
        → Presents req (codes "Bearer") creds
        → set.accepts_jwt ≡ true
        → looks_like_jwt out.has_alg creds ≡ true
        → auth_jwt out creds ≡ some c
        → J c
    unfolding auth_jwt
    auth_jwt-Justified creds c shown on like h = elim (Option-cases (out.verify_jwt creds)) [
      | inl e ↦ absurd (ground (arith, h, e))
      | inr (o, e) ↦ elim (Option-cases (claim o)) [
        | inl f ↦ absurd (ground (arith, h, e, f))
        | inr (p, f) ↦
            subst J (ground (arith, h, e, f))
              (Justified.json_web_token creds p shown on like (e ∙ ap some (claim-some o p f)))
      ]
    ]

    use_token-Justified :
        (creds : Text) (c : Client)
        → Presents req (codes "Bearer") creds
        → (use_token (after out set events) creds now).0 ≡ some c
        → J c
    unfolding use_token
    use_token-Justified creds c shown h =
        elim (Option-cases (lookup creds (after out set events))) [
          | inl e ↦ absurd (ground (arith, h, e))
          | inr (s, e) ↦ elim (Bool-cases (ltb s.expiry (now + date_fuzz))) [
            | inl f ↦ absurd (ground (arith, h, e, f))
            | inr f ↦
                let (t, i, x) = lookup-after out set events creds s e in
                subst J (ground (arith, h, e, f))
                  (Justified.session creds s.principal t shown i (ground arith))
          ]
        ]

    auth_bearer-Justified :
        (creds : Text) (c : Client)
        → Presents req (codes "Bearer") creds
        → (auth_bearer out set (after out set events) creds now).0 ≡ some c
        → J c
    unfolding auth_bearer
    auth_bearer-Justified creds c shown h =
        elim (Bool-cases (set.accepts_jwt && looks_like_jwt out.has_alg creds)) [
          | inl e ↦
              auth_jwt-Justified creds c shown (ground (arith, e)) (ground (arith, e))
                (ground (arith, h, e))
          | inr e ↦ use_token-Justified creds c shown (ground (arith, h, e))
        ]

    shown_as :
        (scheme creds name : Text)
        → Presents req scheme creds
        → (scheme == name) ≡ true
        → Presents req name creds
    shown_as scheme creds name shown e =
        subst (λ k. Presents req k creds) ((==_iff scheme name).0 e) shown

    by_scheme-Justified :
        (scheme creds : Text) (c : Client)
        → Presents req scheme creds
        → (by_scheme out set (after out set events) (scheme, creds) now).0 ≡ some c
        → J c
    unfolding by_scheme
    by_scheme-Justified scheme creds c shown h = elim (Bool-cases (scheme == codes "Basic")) [
      | inl e ↦
          auth_basic-Justified creds c (shown_as scheme creds _ shown e) (ground (arith, h, e))
      | inr e ↦ elim (Bool-cases (scheme == codes "Negotiate")) [
        | inl f ↦
            auth_gssapi-Justified creds c (shown_as scheme creds _ shown f)
              (ground (arith, h, e, f))
        | inr f ↦ elim (Bool-cases (scheme == codes "Bearer")) [
          | inl g ↦
              auth_bearer-Justified creds c (shown_as scheme creds _ shown g)
                (ground (arith, h, e, f, g))
          | inr g ↦ absurd (ground (arith, h, e, f, g))
        ]
      ]
    ]

    answer-next : (r : Option Client × Tokens) (c : Client) → (answer r).0 ≡ next c → r.0 ≡ some c
    answer-next (none, ts) c h = cc
    answer-next (some d, ts) c h = cc

    -- A request is let through only on a public path without a header, with a password that the
    -- Kerberos server verifies, with a complete security context, with a verified JWT, or with a
    -- token that was issued and has not run out; the client is the one that these name.
    pub auth-Justified :
        (c : Client) → (auth out set (after out set events) req now).0 ≡ next c → J c
    unfolding auth
    auth-Justified c h = elim (Option-cases (header req.authorization)) [
      | inl e ↦ elim (Bool-cases (is_public set req.path)) [
        | inl f ↦ subst J (ground (arith, h, e, f)) (Justified.open_path e f)
        | inr f ↦ absurd (ground (arith, h, e, f))
      ]
      | inr (k, e) ↦ elim (Option-cases (match_auth k)) [
        | inl f ↦ absurd (ground (arith, h, e, f))
        | inr ((scheme, creds), f) ↦
            by_scheme-Justified scheme creds c (k, e, f)
              (answer-next (by_scheme out set (after out set events) (scheme, creds) now) c
                (ground (arith, h, e, f)))
      ]
    ]
