-- ===== src/Endpoint.antt =====
-- src/endpoint/mod.rs: the Bedrock endpoints, what each is known to
-- support, and how a request is routed to one of them.
pub mod Capability
pub mod Pool
pub mod Health
pub mod Stats
