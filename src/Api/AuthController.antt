-- ===== src/Api/AuthController.antt =====
-- src/auth/auth.controller.ts: sessions and passkey logins, with the cookies that they set.
use idp_be.Prelude.{ℕ, ◌+◌, String, Bool, true, Option, none, some, List, [], ◌∷◌}
use idp_be.Exec.{Exec, ok, pure, ◌>>=◌, ◌>>◌}
use idp_be.Platform.{Platform, World}
use idp_be.Auth.Service
use idp_be.Auth.Service.{LoginResult}
use idp_be.Api.Http.{Credentials}

pub record CookieOptions : Type 0 where
  pub http_only : Bool
  pub secure : Bool
  pub same_site : String
  pub expires : Option ℕ
  pub path : String

-- What `response.cookie` and `response.clearCookie` set.
pub data Cookie : Type 0 where
  set_cookie : (name value : String) → CookieOptions → Cookie
  clear_cookie : (name : String) → CookieOptions → Cookie

abbrev pub options : Option ℕ → (path : String) → CookieOptions
options expires path = record {
  http_only = true;
  secure = true;
  same_site = "strict";
  expires = expires;
  path = path;
}

-- The cookies and the body of an answer.
pub record LoginRes : Type 0 where
  pub cookies : List Cookie
  pub access_token : String

abbrev pub login_res : LoginResult → (now : ℕ) → LoginRes
login_res res now = record {
  cookies =
      set_cookie "accessToken" res.access_token
        (options (some (now + res.access_token_expire_time)) "/")
      ∷ set_cookie "refreshToken" res.refresh_token
          (options (some (now + res.refresh_token_expire_time)) "/auth")
      ∷ [];
  access_token = res.access_token;
}

-- `request.cookies.refreshToken ?? ''`
abbrev pub refresh_cookie_of : Credentials → String
refresh_cookie_of creds = or_empty creds.refresh_cookie
  where
    or_empty : Option String → String
    or_empty none = ""
    or_empty (some s) = s

module _ {Db Cache Response : Type 0} (P : Platform Db Cache Response) where
  abbrev pub with_cookies : Exec (World Db Cache) LoginResult → Exec (World Db Cache) LoginRes
  with_cookies m = do res ← m; (λ w. (ok (login_res res w.now), w))

  unfoldable pub login : (email password : String) → Exec (World Db Cache) LoginRes
  login email password = with_cookies (Service.login P email password)

  unfoldable pub logout : Credentials → Exec (World Db Cache) (List Cookie)
  unfolding pure
  logout creds = do
    Service.logout P (refresh_cookie_of creds)
    pure (
        clear_cookie "accessToken" (options none "/")
        ∷ clear_cookie "refreshToken" (options none "/auth")
        ∷ [])

  unfoldable pub refresh : Credentials → Exec (World Db Cache) LoginRes
  refresh creds = with_cookies (Service.refresh P (refresh_cookie_of creds))

  unfoldable pub authenticate_options : Exec (World Db Cache) (String × String)
  authenticate_options = Service.authenticate_options P

  unfoldable pub verify_authentication : (key : String) → Response → Exec (World Db Cache) LoginRes
  verify_authentication key response = with_cookies (Service.verify_authentication P key response)
