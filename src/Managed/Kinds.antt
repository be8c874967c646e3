-- ===== src/Managed/Kinds.antt =====
-- The controllers of the six kinds of Vault roles, one per file of pkg/controller.
pub mod Mysql
pub mod Mongodb
pub mod Postgres
pub mod Aws
pub mod Azure
pub mod Gcp
