-- ===== src/Rx/Response/Laws.antt =====
-- The laws of the methods of `Response`.
use amrc_connectivity_stack.Prelude.{
  ℕ, ◌≤◌, ◌<◌, ◌≡◌, ◌≢◌, ◌⊎◌, ◌↔◌, true, List, Option, some, arith, nat_eq, list_eq, string_eq,
}
use amrc_connectivity_stack.Rx.Response.{
  Header, known, Response, response, kind_of, is_ok, is_empty, is_error, flat_map, map_body,
  to_update, of_update,
}
use amrc_connectivity_stack.Rx.Response.Headers.{known-known}

-- A response whose headers are those that the constructor keeps, as every response that was built
-- by `Response.of` is.
pub record IsBuilt {B : Type 0} (r : Response B) : Type 0 where
  pub headers : known r.headers ≡ r.headers

module _ {B : Type 0} where
  pub response-IsBuilt : (st : ℕ) (b : Option B) (hs : List Header) → IsBuilt (response st b hs)
  unfolding response
  response-IsBuilt st b hs = record { headers = known-known hs }

  -- Exactly one of the three classes fits a status, by its range.
  kind_of_ranges :
      (r : Response B)
      → ((is_ok r ≡ true) ↔ ((200 ≤ r.status) × (r.status < 300)))
        × ((is_empty r ≡ true) ↔ (r.status ≡ 404))
        × ((is_error r ≡ true) ↔ ((r.status ≢ 404) × ((r.status < 200) ⊎ (300 ≤ r.status))))
  unfolding is_ok is_empty is_error kind_of
  kind_of_ranges r = (ground arith, ground arith, ground arith)

  -- Mapping twice is mapping once by the composition; status and headers stay as they are.
  map_body-map_body :
      (r : Response B) (f g : Option B → Option B)
      → map_body (map_body r f) g ≡ map_body r (λ b. g (f b))
  unfolding map_body
  map_body-map_body r f g = ground (arith, known-known r.headers)

  -- `flatMap` is associative.
  pub flat_map-flat_map :
      (r : Response B) (f g : Option B → Response B)
      → flat_map (flat_map r f) g ≡ flat_map r (λ b. flat_map (f b) g)
  unfolding flat_map
  flat_map-flat_map r f g = ground arith

  -- A built response is read back from the notify/v2 update that it is sent as, whatever the index.
  of_update-to_update : (r : Response B) (ix : ℕ) → IsBuilt r → of_update (to_update r ix) ≡ some r
  unfolding of_update to_update
  of_update-to_update r ix h = ground (arith, h.headers)
