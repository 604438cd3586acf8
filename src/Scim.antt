-- ===== src/Scim.antt =====
-- src/scim: provisioning of users and groups. Modelled are the filter language of its searches, the groups and the users.
pub mod Filter
pub mod Groups
pub mod Users
