-- ===== src/Api.antt =====
-- internal/api/server.go
pub mod Server
pub mod Gates
pub mod Handlers
pub mod Service
