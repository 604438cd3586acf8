-- ===== src/Auth.antt =====
-- src/auth and src/api/cli_auth.rs: how a user gets a token.
pub mod CliSession
