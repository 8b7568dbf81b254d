-- ===== src/Requests.antt =====
-- The server as a whole.
pub mod Frame
pub mod Steps
pub mod Kept
pub mod Traces
pub mod Once
pub mod Accounts
pub mod Grants
pub mod Codes
