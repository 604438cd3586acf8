-- ===== src/Json.antt =====
-- `serde_json::Value`, which the gateway rewrites in place. An object is a `BTreeMap`: its fields
-- stand in the order of their keys. A number is kept as its text.
mod Values
pub mod Access
unfoldable pub use Values.*
