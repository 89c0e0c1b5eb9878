-- ===== src/Rx/Tests.antt =====
-- Runs of `Response` (lib/js-rx-util/lib/response.js).
use amrc_connectivity_stack.Prelude.{ℕ, ◌≡◌, refl, [], ◌∷◌, some}
use amrc_connectivity_stack.Text.{codes}
use amrc_connectivity_stack.Rx.Response.{Header, known, response}

abbrev etag : Header
etag = record { key = codes "ETag"; value = "1" }

etag_dropped : (response {B = ℕ} 200 (some 3) (etag ∷ [])).headers ≡ []
unfolding response known
etag_dropped = refl
