-- ===== src/Auth.antt =====
-- src/auth: sessions of the service's own site, by password and by passkey.
pub mod Repository
pub mod Service
pub mod Sessions
pub mod Refines
pub mod Machine
pub mod PasskeyLogin
