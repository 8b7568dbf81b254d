-- ===== src/Oauth.antt =====
-- src/oauth
pub mod Types
pub mod Repository
pub mod Service
pub mod Tokens
pub mod Frame
pub mod CodeGrant
pub mod RefreshGrant
pub mod Authorize
pub mod Clients
pub mod UserInfo
pub mod Live
