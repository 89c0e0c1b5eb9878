-- ===== src/Edge.antt =====
-- The framework of the edge drivers (lib/js-edge-driver).
pub mod Topic
pub mod Driver
pub mod Data
pub mod Tests
