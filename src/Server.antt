-- ===== src/Server.antt =====
-- The Central Server: internal/server.
pub mod Http
pub mod Repository
pub mod Broadcaster
pub mod Consumer
pub mod Configs
pub mod Auth
pub mod Entitlements
pub mod Api
