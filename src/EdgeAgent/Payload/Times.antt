-- ===== src/EdgeAgent/Payload/Times.antt =====
-- Nanoseconds and their 64 bits (acs-edge/lib/sparkplugNode.ts).
use amrc_connectivity_stack.Prelude.{ℕ, ◌≤◌, ◌<◌, ◌≡◌, ◌⊎◌, ◌↔◌, arith}
use amrc_connectivity_stack.EdgeAgent.Payload.{normalize_to_nanos, ns_to_long}

-- The nanoseconds of a time are sent exactly when the time is in milliseconds up to 18446744073709,
-- which is in the year 2554, or in nanoseconds, from 10 ^ 15 on, that fit in 64 bits.
pub ns_to_long-normalize_to_nanos :
    (t : ℕ)
    → (ns_to_long (normalize_to_nanos t) ≡ normalize_to_nanos t)
      ↔ ((t ≤ 18446744073709) ⊎ ((1000000000000000 ≤ t) × (t < 18446744073709551616)))
unfolding ns_to_long normalize_to_nanos
ns_to_long-normalize_to_nanos t = ground arith

-- Normalising a second time changes nothing exactly when the time is 0 or at least 10 ^ 9.
normalize_to_nanos-normalize_to_nanos :
    (t : ℕ)
    → (normalize_to_nanos (normalize_to_nanos t) ≡ normalize_to_nanos t)
      ↔ ((t ≡ 0) ⊎ (1000000000 ≤ t))
unfolding normalize_to_nanos
normalize_to_nanos-normalize_to_nanos t = ground arith
