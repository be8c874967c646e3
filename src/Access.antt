-- ===== src/Access.antt =====
-- The access requests: a user asks for credentials of a secret engine, an administrator approves
-- or denies, and the operator issues a lease, a secret and the access to it.
pub mod Request
pub mod World
pub mod Controller
pub mod Kinds
pub mod Admission
