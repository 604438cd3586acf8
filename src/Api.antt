-- ===== src/Api.antt =====
-- src/api/handlers.rs: what the gateway does with a request for messages.
pub mod Search
pub mod Dispatch
