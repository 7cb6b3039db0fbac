-- ===== src/Manager.antt =====
-- cmd/main.go: the process that runs the operator, and what it registers with the manager.
pub mod Options
pub mod Registration
pub mod Startup
