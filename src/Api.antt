-- ===== src/Api.antt =====
-- The HTTP surface: the controllers of src, with their guards and answers.
pub mod Http
pub mod Split
pub mod Views
pub mod Scope
pub mod OauthController
pub mod AuthController
pub mod ClientController
pub mod UserController
pub mod Basic
pub mod Owners
pub mod Bodies
pub mod Mailed
pub mod Cors
pub mod Discovery
