-- ===== src/Oauth/RefreshGrant.antt =====
-- `refreshTokenGrant` (src/oauth/oauth.service.ts): its steps, rotation, and openid scopes.
pub mod Run
pub mod Rotation
pub mod Nonce
pub mod Expired
