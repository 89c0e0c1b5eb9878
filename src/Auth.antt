-- ===== src/Auth.antt =====
-- The authorisation service (acs-auth).
pub mod Validate
pub mod Uuids
pub mod Acl
pub mod Permitted
pub mod Store
pub mod Identities
pub mod Api
pub mod Tests
