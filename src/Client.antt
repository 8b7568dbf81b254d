-- ===== src/Client.antt =====
-- src/client
pub mod Repository
pub mod Service
pub mod Lookup
pub mod RoleGuard
pub mod Ownership
pub mod Members
pub mod Scopes
pub mod Secrets
pub mod Frame
