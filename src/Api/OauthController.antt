-- ===== src/Api/OauthController.antt =====
-- src/oauth/oauth.controller.ts, but `certs`. Bodies and queries are as the validation pipe leaves
-- them.
use idp_be.Prelude.{ℕ, String, Option, some, List, ◌==◌, not}
use idp_be.Exec.{Exec, bad_request, library, pure, throw, throw_if, or_throw, ◌>>=◌, ◌>>◌}
use idp_be.Platform.{Platform, World}
use idp_be.Oauth.Types.{AuthorizationReq, GrantContent, TokenTypeHint, UserInfoRes, or_undefined}
use idp_be.Oauth.Service
use idp_be.Api.Http.{
  Credentials, BasicCredentials, absent, malformed, given, basic_auth, user_guard, split, first,
  second,
}
use idp_be.Api.Views.{TokenBody, token_body}

-- The status and the place of a redirection.
pub record Redirect : Type 0 where
  pub url : String
  pub status_code : ℕ

module _ {Db Cache Response : Type 0} (P : Platform Db Cache Response) where
  unfoldable pub consent :
      Credentials → (scope : List String) → (client_id : String) → Exec (World Db Cache) (Unit {0})
  consent creds scope client_id = do
    user ← user_guard P creds
    Service.consent P scope client_id user

  unfoldable pub authorize : Credentials → AuthorizationReq → Exec (World Db Cache) Redirect
  unfolding pure
  authorize creds query = do
    user ← user_guard P creds
    url ← Service.authorize P query user
    pure (record { url = url; status_code = 302 })

  -- A grant for the client that basic credentials name: they replace what the body says, a missing
  -- password too.
  abbrev pub grant_as :
      (username : String)
      → (password : Option String) → GrantContent
      → Exec (World Db Cache) TokenBody
  grant_as username password (GrantContent.authorization_code _ code verifier) = do
    res ← Service.token P (GrantContent.authorization_code (some username) code verifier)
    pure (token_body res)
  grant_as username password (GrantContent.refresh_token _ refresh_token) = do
    res ← Service.token P (GrantContent.refresh_token (some username) refresh_token)
    pure (token_body res)
  grant_as username password (GrantContent.client_credentials _ _ scope) = do
    res ← Service.token P (GrantContent.client_credentials (some username) password scope)
    pure (token_body res)
  grant_as username password GrantContent.other_grant = do
    res ← Service.token P GrantContent.other_grant
    pure (token_body res)

  abbrev pub grant_with : BasicCredentials → GrantContent → Exec (World Db Cache) TokenBody
  grant_with absent body = do res ← Service.token P body; pure (token_body res)
  grant_with malformed body = throw (library "TypeError")
  grant_with (given username password) body = grant_as username password body

  unfoldable pub token :
      (authorization : Option String) → GrantContent → Exec (World Db Cache) TokenBody
  unfolding pure throw
  token authorization body = grant_with (basic_auth P authorization) body

  unfoldable pub revoke : String → Option TokenTypeHint → Exec (World Db Cache) (Unit {0})
  revoke given_token hint = Service.revoke P given_token hint

  unfoldable pub userinfo : (authorization sub : Option String) → Exec (World Db Cache) UserInfoRes
  unfolding split
  userinfo authorization sub = do
    header ← or_throw authorization (library "TypeError")
    throw_if (not (or_undefined (first (split b' ' header)) == "Bearer"))
        (bad_request "invalid token type")
    Service.userinfo P (or_undefined (second (split b' ' header))) sub
