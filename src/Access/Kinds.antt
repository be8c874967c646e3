-- ===== src/Access/Kinds.antt =====
-- The controllers of the four kinds of access requests, one per file of pkg/controller.
pub mod Database
pub mod Aws
pub mod Azure
pub mod Gcp
