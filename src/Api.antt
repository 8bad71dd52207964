-- ===== src/Api.antt =====
-- cmd/api: the configuration of the service.
pub mod Settings
pub mod Startup
