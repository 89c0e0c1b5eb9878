-- ===== src/Rx.antt =====
-- The reactive utilities (lib/js-rx-util).
pub mod Response
pub mod Tests
