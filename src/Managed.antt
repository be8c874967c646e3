-- ===== src/Managed.antt =====
-- The resources that the operator keeps up to date in Vault: roles, secret engines, policies and
-- policy bindings. Their controllers share the shape of a status and the outside world.
pub mod World
pub mod Plan
pub mod Role
pub mod Engine
pub mod Policy
pub mod Binding
pub mod Kinds
