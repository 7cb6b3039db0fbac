-- ===== src/Controller.antt =====
-- internal/controller/hermesagent_controller.go: the reconciler.
pub mod Exec
pub mod Client
pub mod Inputs
pub mod Watch
pub mod Drift
pub mod Status
pub mod View
pub mod Events
pub mod Ensure
pub mod Patch
pub mod Reconcile
