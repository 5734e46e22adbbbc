-- ===== src/Server/Auth.antt =====
-- internal/server/auth and the console's sessions.
pub mod Jwt
pub mod Sessions
pub mod Visits
pub mod Console
