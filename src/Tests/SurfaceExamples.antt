-- ===== src/Tests/SurfaceExamples.antt =====
-- Cross-origin requests and the discovery document on concrete values.
use idp_be.Prelude.{◌≡◌, refl, some}
use idp_be.User.Service.{ends_with}
use idp_be.Api.Http.{split}
use idp_be.Api.Cors.{allows, method_not_allowed, https_site, whitelisted, public_path, cors}
use idp_be.Api.Discovery.{remove_first}

preview_allowed :
    cors (some "https://x.idp-fe.pages.dev") "/user?a=b" ≡ allows "https://x.idp-fe.pages.dev"
unfolding cors split whitelisted public_path https_site ends_with
preview_allowed = refl

other_refused : cors (some "https://x.pages.dev") "/user" ≡ method_not_allowed
unfolding cors split whitelisted public_path https_site ends_with
other_refused = refl

token_is_public :
    cors (some "https://x.pages.dev") "/oauth/token?a=b" ≡ allows "https://x.pages.dev"
unfolding cors split whitelisted public_path https_site ends_with
token_is_public = refl

issuer_of_base_url : remove_first "api." "https://api.site.me/api." ≡ "https://site.me/api."
unfolding remove_first
issuer_of_base_url = refl
