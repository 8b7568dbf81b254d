-- ===== src/Oauth/CodeGrant.antt =====
-- `codeGrant` (src/oauth/oauth.service.ts): its steps, what they check, and that a code is used up.
pub mod Run
pub mod Sound
pub mod Consumed
pub mod Answers
