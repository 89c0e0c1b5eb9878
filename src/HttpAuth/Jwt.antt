-- ===== src/HttpAuth/Jwt.antt =====
-- Class `JwtVerifier` (lib/js-service-api/lib/jwt.js): discovery of the issuer and its keys.
pub mod Discovery
use amrc_connectivity_stack.Prelude.{
  ◌≡◌, refl, Bool, true, false, List, [], ◌∷◌, Option, none, some, if◌then◌else◌,
}
use amrc_connectivity_stack.Text.{Text}

-- What a fetch of the discovery URL comes to: no answer or no JSON, an HTTP error, or a document
-- with its issuer and the URI of its keys. An empty string counts as missing.
pub data Fetched : Type 0 where
  failed http_error : Fetched
  document : Option Text → Option Text → Fetched

-- `discovered` is whether `_discovery` is there. A key set is known by its URI.
pub record Verifier : Type 0 where
  pub issuer : Option Text
  pub jwks : Option Text
  pub discovered : Bool

abbrev pub new_verifier : Verifier
new_verifier = record { issuer = none; jwks = none; discovered = false }

-- `new URL` of a malformed URI throws when the issuer has been set; a failure is not kept.
unfoldable pub use_document : (Text → Bool) → Text → Text → Verifier → Bool × Verifier
use_document is_url issuer uri v =
    if is_url uri
    then (true, record { issuer = some issuer; jwks = some uri; discovered = true })
    else (false, record v { issuer = some issuer })

unfoldable pub fetch_discovery : (Text → Bool) → Fetched → Verifier → Bool × Verifier
fetch_discovery is_url (document (some (c ∷ i)) (some (d ∷ u))) v =
    use_document is_url (c ∷ i) (d ∷ u) v
fetch_discovery is_url _ v = (false, v)

-- `_discover`: whether it succeeds. One that has succeeded is not fetched again.
unfoldable pub discover : (Text → Bool) → Fetched → Verifier → Bool × Verifier
discover is_url fetched v = if v.discovered then (true, v) else fetch_discovery is_url fetched v

-- `jwtVerify` of the library: the payload of a token under a key set and an issuer, if it is valid.
module _ {P : Type 0} (jwt_verify : Text → Option Text → Option Text → Option P) where
  unfoldable pub verify : (Text → Bool) → Fetched → Text → Verifier → Option P × Verifier
  verify is_url fetched token v =
      let (ok, v') = discover is_url fetched v in
      (if ok then jwt_verify token v'.jwks v'.issuer else none, v')

  -- The verifier after a history of calls, the latest first.
  abbrev pub after : (Text → Bool) → List (Fetched × Text) → Verifier
  after is_url [] = new_verifier
  after is_url ((f, t) ∷ past) = (verify is_url f t (after is_url past)).1
