-- ===== src/Server.antt =====
-- A Vault server: its spec and the webhooks that check it, the storage and the unsealer that it is
-- given, and what the operator watches of one that runs, the health of its pods and its auth
-- methods.
pub mod Health
pub mod AuthMethods
pub mod Pod
pub mod Spec
pub mod Validator
pub mod Storage
pub mod Unsealer
pub mod Admission
pub mod Routines
pub mod Cluster
pub mod Monitoring
pub mod Deploy
pub mod Controller
