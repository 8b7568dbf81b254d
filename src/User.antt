-- ===== src/User.antt =====
-- src/user
pub mod Repository
pub mod Service
pub mod Registration
pub mod Passkeys
pub mod Passwords
pub mod Phones
pub mod Frame
