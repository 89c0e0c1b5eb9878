-- ===== src/ConfigDb.antt =====
-- The Config Store service (acs-configdb).
pub mod Etags
pub mod Configs
pub mod Objects
pub mod Api
pub mod Tests
