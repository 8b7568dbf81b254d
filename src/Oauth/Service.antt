-- ===== src/Oauth/Service.antt =====
-- src/oauth/oauth.service.ts, but `certs`. A request runs at one time and alone: what other
-- requests do between its steps is not modelled here.
mod Values
unfoldable pub use Values.*
mod Grants
unfoldable pub use Grants.*
mod Endpoints
unfoldable pub use Endpoints.*
