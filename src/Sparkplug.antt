-- ===== src/Sparkplug.antt =====
-- Sparkplug addresses, topics and names (lib/js-service-client/lib/sparkplug/util.js).
pub mod Address
pub mod Topic
pub mod SafeString
pub mod Tests
