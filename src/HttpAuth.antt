-- ===== src/HttpAuth.antt =====
-- Authentication of HTTP requests (lib/js-service-api/lib/auth.js, jwt.js).
pub mod Header
pub mod Jwt
pub mod Server
pub mod Tests
