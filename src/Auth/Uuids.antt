-- ===== src/Auth/Uuids.antt =====
-- UUID constants (acs-auth/lib/uuids.js).
pub mod Perm
pub mod Special
