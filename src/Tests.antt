-- ===== src/Tests.antt =====
-- Concrete outside systems, and the theorems at concrete inputs.
mod Systems
mod Servers
mod AuthMethods
mod Bindings
mod PatchUtils
mod VaultServers
mod Pods
mod Controllers
mod AccessRequests
mod Resources
