-- ===== src/HttpAuth/Jwt/Discovery.antt =====
-- What a verified JWT was verified against.
use amrc_connectivity_stack.Prelude.{
  ◌≡◌, refl, ◌∙◌, sym, inl, inr, Bool, true, false, List, [], ◌∷◌, Option, none, some, arith,
  if_holds, In, Bool-cases,
}
use mathlib.Core.Path.{ap₂}
use amrc_connectivity_stack.Text.{Text}
use amrc_connectivity_stack.HttpAuth.Jwt.{
  Fetched, document, failed, http_error, Verifier, use_document, fetch_discovery, discover, verify,
  after,
}

module _ {P : Type 0} (jwt_verify : Text → Option Text → Option Text → Option P)
    (is_url : Text → Bool) where
  -- The issuer and the keys are those of one document.
  abbrev pub From : List Fetched → Verifier → Type 0
  From docs v =
      (i : Text) × (u : Text) × In (document (some i) (some u)) docs
      × (is_url u ≡ true)
      × (v.issuer ≡ some i)
      × (v.jwks ≡ some u)

  abbrev fetches : List (Fetched × Text) → List Fetched
  fetches [] = []
  fetches ((f, t) ∷ past) = f ∷ fetches past

  -- A discovery that has succeeded rests on a document.
  abbrev Sound : List Fetched → Verifier → Type 0
  Sound docs v = v.discovered ≡ true → From docs v

  abbrev Result : List Fetched → Bool × Verifier → Type 0
  Result docs r = Sound docs r.1 × (r.0 ≡ true → From docs r.1)

  more : (f : Fetched) (docs : List Fetched) (v : Verifier) → From docs v → From (f ∷ docs) v
  more f docs v (i, u, at, e, x, y) = (i, u, inr at, e, x, y)

  missing :
      (f : Fetched) (docs : List Fetched) (v : Verifier)
      → Sound docs v
      → Result (f ∷ docs) (false, v)
  missing f docs v h = ((λ d. more f docs v (h d)), λ x. cc)

  fetch_discovery-Result :
      (f : Fetched) (docs : List Fetched) (v : Verifier)
      → Sound docs v
      → v.discovered ≡ false
      → Result (f ∷ docs) (fetch_discovery is_url f v)
  unfolding fetch_discovery use_document
  fetch_discovery-Result failed docs v h n = missing failed docs v h
  fetch_discovery-Result http_error docs v h n = missing http_error docs v h
  fetch_discovery-Result (document none u) docs v h n = missing _ docs v h
  fetch_discovery-Result (document (some []) u) docs v h n = missing _ docs v h
  fetch_discovery-Result (document (some (c ∷ i)) none) docs v h n = missing _ docs v h
  fetch_discovery-Result (document (some (c ∷ i)) (some [])) docs v h n = missing _ docs v h
  fetch_discovery-Result (document (some (c ∷ i)) (some (d ∷ u))) docs v h n =
      let f = document (some (c ∷ i)) (some (d ∷ u)) in
      if_holds (Result (f ∷ docs)) (is_url (d ∷ u)) _ _
        (λ e. (
          (λ x. (c ∷ i, d ∷ u, inl refl, e, refl, refl)),
          (λ x. (c ∷ i, d ∷ u, inl refl, e, refl, refl)),
        ))
        (λ e. ((λ x. cc), (λ x. cc)))

  discover-Result :
      (f : Fetched) (docs : List Fetched) (v : Verifier)
      → Sound docs v
      → Result (f ∷ docs) (discover is_url f v)
  unfolding discover
  discover-Result f docs v h =
      if_holds (Result (f ∷ docs)) v.discovered _ _
        (λ d. ((λ x. more f docs v (h d)), (λ x. more f docs v (h d))))
        (λ n. fetch_discovery-Result f docs v h n)

  after-Sound :
      (calls : List (Fetched × Text)) → Sound (fetches calls) (after jwt_verify is_url calls)
  unfolding verify
  after-Sound [] = λ x. cc
  after-Sound ((f, t) ∷ past) =
      (discover-Result f (fetches past) (after jwt_verify is_url past) (after-Sound past)).0

  -- Whatever calls there were, a payload is given only for a token that is valid under the issuer
  -- and the keys of one discovery document that was fetched and is complete.
  pub verify-document :
      (past : List (Fetched × Text)) (f : Fetched) (token : Text) (p : P)
      → (verify jwt_verify is_url f token (after jwt_verify is_url past)).0 ≡ some p
      → (i : Text) × (u : Text) × In (document (some i) (some u)) (f ∷ fetches past)
        × (jwt_verify token (some u) (some i) ≡ some p)
  unfolding verify
  verify-document past f token p h =
      let v = after jwt_verify is_url past in
      let r = discover is_url f v in
      elim (Bool-cases r.0) [
        | inl ok ↦
            let (i, u, at, e, x, y) =
              (discover-Result f (fetches past) v (after-Sound past)).1 ok in
            let valid : jwt_verify token r.1.jwks r.1.issuer ≡ some p = ground (arith, h, ok) in
            (i, u, at, sym (ap₂ (jwt_verify token) y x) ∙ valid)
        | inr bad ↦ absurd (ground (arith, h, bad))
      ]
