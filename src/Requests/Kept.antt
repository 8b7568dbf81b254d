-- ===== src/Requests/Kept.antt =====
-- What the controllers add to the services brings nothing to a key that is not drawn.
use idp_be.Prelude.{ℕ, String, Option, some}
use idp_be.Exec.{Exec, pure, ◌>>=◌}
use idp_be.Exec.Keeps.{Keeps, Keeps-bind, Keeps-pure, Keeps-throw, Keeps-throw_if, Keeps-or_throw}
use idp_be.Schema.{CachedValue, RoleType, User}
use idp_be.Platform.{Platform, World}
use idp_be.Platform.Laws.{RedisLaws}
use idp_be.Database.Keeps.{CacheOnly, Keeps-answer, steps_rules}
use idp_be.Client.Frame
use idp_be.Auth.Service.{LoginResult}
use idp_be.Oauth.Service as OauthService
use idp_be.Api.Views.{token_body}
use idp_be.Oauth.Types.{GrantContent}
use idp_be.Api.Http.{
  Credentials, BasicCredentials, absent, malformed, given, validate, user_guard, member_guard,
}
use idp_be.Api.OauthController
use idp_be.Api.OauthController.{grant_as, grant_with}
use idp_be.Api.AuthController.{with_cookies}
use idp_be.Requests.Frame.{IsTokenKey, IsOnly, IsOnly-CacheOnly}
use idp_be.Requests.Accounts
use idp_be.Requests.Grants

module _ {Db Cache Response : Type 0} (P : Platform Db Cache Response) (L : RedisLaws P.redis)
    (allowed : ℕ → CachedValue → Type 0) (full : String) (key : IsTokenKey full) where
  c : CacheOnly (IsOnly P allowed full)
  c = IsOnly-CacheOnly P allowed full

  Keeps-validate : (sub : Option String) → Keeps (IsOnly P allowed full) (validate P sub)
  unfolding validate
  Keeps-validate sub = search (steps_rules, Accounts.Keeps-find_session_user P L allowed full key)

  pub Keeps-user_guard : (creds : Credentials) → Keeps (IsOnly P allowed full) (user_guard P creds)
  unfolding user_guard
  Keeps-user_guard creds = Keeps-bind _ _ (search steps_rules) (λ token.
      Keeps-bind _ _
        (record {
          after = λ w h.
              (Keeps-answer {Q = IsOnly P allowed full} _ (P.jwt.verify_user token w.now)).after w
                h;
        })
        (λ sub. Keeps-validate sub))

  Keeps-member_guard :
      (role : RoleType) (uuid : String) (creds : Credentials)
      → Keeps (IsOnly P allowed full) (member_guard P role uuid creds)
  unfolding member_guard
  Keeps-member_guard role uuid creds =
      search (steps_rules, Keeps-user_guard, Frame.Keeps-can_activate P c)

  -- A handler behind the guards, and one whose answer is rewritten.
  pub as_user :
      {A : Type 0} (creds : Credentials) (f : User → Exec (World Db Cache) A)
      → ((user : User) → Keeps (IsOnly P allowed full) (f user))
      → Keeps (IsOnly P allowed full) (user_guard P creds >>= f)
  as_user creds f k = Keeps-bind _ _ (Keeps-user_guard creds) k

  pub as_member :
      {A : Type 0} (role : RoleType) (uuid : String) (creds : Credentials)
      (f : User → Exec (World Db Cache) A)
      → ((user : User) → Keeps (IsOnly P allowed full) (f user))
      → Keeps (IsOnly P allowed full) (member_guard P role uuid creds >>= f)
  as_member role uuid creds f k = Keeps-bind _ _ (Keeps-member_guard role uuid creds) k

  pub answers :
      {A B : Type 0} (m : Exec (World Db Cache) A) (g : A → B)
      → Keeps (IsOnly P allowed full) m
      → Keeps (IsOnly P allowed full) (m >>= λ a. pure (g a))
  answers m g k = Keeps-bind _ _ k (λ a. Keeps-pure _)

  pub Keeps-with_cookies :
      (m : Exec (World Db Cache) LoginResult)
      → Keeps (IsOnly P allowed full) m
      → Keeps (IsOnly P allowed full) (with_cookies P m)
  Keeps-with_cookies m k = Keeps-bind _ _ k (λ res. record { after = λ w h. h })

  Keeps-token :
      (body : GrantContent)
      → Keeps (IsOnly P allowed full) (OauthService.token P body >>= λ res. pure (token_body res))
  Keeps-token body = answers _ token_body (Grants.Keeps-token P L allowed full body)

  Keeps-grant_as :
      (username : String) (password : Option String) (body : GrantContent)
      → Keeps (IsOnly P allowed full) (grant_as P username password body)
  Keeps-grant_as username password (GrantContent.authorization_code _ code verifier) =
      Keeps-token (GrantContent.authorization_code (some username) code verifier)
  Keeps-grant_as username password (GrantContent.refresh_token _ token) =
      Keeps-token (GrantContent.refresh_token (some username) token)
  Keeps-grant_as username password (GrantContent.client_credentials _ _ scope) =
      Keeps-token (GrantContent.client_credentials (some username) password scope)
  Keeps-grant_as username password GrantContent.other_grant = Keeps-token GrantContent.other_grant

  pub Keeps-grant_with :
      (basic : BasicCredentials) (body : GrantContent)
      → Keeps (IsOnly P allowed full) (grant_with P basic body)
  Keeps-grant_with absent body = Keeps-token body
  Keeps-grant_with malformed body = Keeps-throw _
  Keeps-grant_with (given username password) body = Keeps-grant_as username password body

  pub Keeps-userinfo :
      (authorization sub : Option String)
      → Keeps (IsOnly P allowed full) (OauthController.userinfo P authorization sub)
  unfolding OauthController.userinfo
  Keeps-userinfo authorization sub = Keeps-bind _ _ (Keeps-or_throw _ _) (λ header.
      Keeps-bind _ _ (Keeps-throw_if _ _) (λ _. Grants.Keeps-userinfo P L allowed full _ sub))
