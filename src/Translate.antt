-- ===== src/Translate.antt =====
-- src/translate: between the requests of Claude Code and those of Bedrock. Modelled are the names of
-- models.
pub mod Models
pub mod Response
pub mod Request
