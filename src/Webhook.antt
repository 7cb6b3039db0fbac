-- ===== src/Webhook.antt =====
-- internal/webhook/v1/hermesagent_webhook.go: the admission webhook's defaulting and validation.
pub mod Defaults
pub mod Fields
pub mod References
pub mod Mounts
pub mod Network
pub mod Validate
pub mod Agreement
pub mod Admission
pub mod Replicas
