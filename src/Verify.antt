-- ===== src/Verify.antt =====
-- src/verify: codes by mail and by text message, and what they prove.
pub mod Digits
pub mod Service
pub mod Codes
