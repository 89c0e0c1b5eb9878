-- ===== src/EdgeAgent.antt =====
-- The Edge Agent (acs-edge).
pub mod Tests
pub mod Types
pub mod Bytes
pub mod Buffer
pub mod Metrics
pub mod Payload
pub mod Node
pub mod Device
