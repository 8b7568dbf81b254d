-- ===== src/Api/Http.antt =====
-- What a request carries besides its body, and the guards that read it:
-- libs/global/src/extractor/accessToken.extractor.ts, src/auth/guard and
-- src/oauth/guards/basicAuth.guard.ts.
use Prim.Native.Char.{Char, code}
use Prim.Native.String.{[], ◌∷◌}
use idp_be.Prelude.{ℕ, String, Option, none, some, List, ◌∷◌, [], ◌==◌, if◌then◌else◌}
use idp_be.Exec.{Exec, unauthorized, pure, answer, or_throw, require_text, ◌>>=◌, ◌>>◌}
use idp_be.Schema.{User, RoleType}
use idp_be.Platform.{Platform, World}
use idp_be.Random.{is_code}
use idp_be.Auth.Service as AuthService
use idp_be.Client.RoleGuard

-- The header `Authorization` and the two cookies.
pub record Credentials : Type 0 where
  pub authorization : Option String
  pub access_cookie : Option String
  pub refresh_cookie : Option String

-- `s.split(separator)` for a separator of one character
abbrev pub onto_first : Char → List String → List String
onto_first c [] = []
onto_first c (w ∷ ws) = (c ∷ w) ∷ ws

unfoldable pub split : ℕ → String → List String
split separator [] = "" ∷ []
split separator (c ∷ s) =
    let rest = split separator s in
    if is_code (code c) separator then "" ∷ rest else onto_first c rest

-- `const [first, second] = words`
abbrev pub first : List String → Option String
first [] = none
first (x ∷ _) = some x

abbrev pub second : List String → Option String
second [] = none
second (_ ∷ []) = none
second (_ ∷ y ∷ _) = some y

-- A text that is there and not empty, or nothing.
abbrev pub non_blank : Option String → Option String
non_blank none = none
non_blank (some s) = if s == "" then none else some s

abbrev pub or_else : Option String → Option String → Option String
or_else none other = other
or_else (some x) other = some x

module _ {Db Cache Response : Type 0} (P : Platform Db Cache Response) where
  abbrev pub bearer : Option String → Option String
  bearer none = none
  bearer (some header) = non_blank (P.jwt.bearer_token header)

  abbrev pub access_token_extractor : Credentials → Option String
  access_token_extractor creds =
      or_else (bearer creds.authorization) (non_blank creds.access_cookie)

  -- `UserStrategy.validate`
  unfoldable pub validate : (sub : Option String) → Exec (World Db Cache) User
  validate sub = do
    uuid ← require_text sub (unauthorized "invalid token")
    AuthService.find_user_by_uuid P uuid

  -- `UserGuard`: passport takes the token, checks it, and sets the user that `validate` finds.
  unfoldable pub user_guard : Credentials → Exec (World Db Cache) User
  unfolding validate
  user_guard creds = do
    token ← or_throw (access_token_extractor creds) (unauthorized "")
    sub ← (λ w. answer (λ _. unauthorized "") (P.jwt.verify_user token w.now) w)
    validate sub

  -- `@UseGuards(UserGuard, ClientRoleGuard)` with `@RequireClientRole(role)`
  unfoldable pub member_guard :
      RoleType → (client_uuid : String) → Credentials → Exec (World Db Cache) User
  unfolding pure
  member_guard role client_uuid creds = do
    user ← user_guard creds
    RoleGuard.can_activate P (some role) (some user.uuid) (some client_uuid)
    pure user

-- What `BasicAuthGuard` finds: no basic credentials, a name with a password that may be missing,
-- or a header that it fails on.
pub data BasicCredentials : Type 0 where
  absent malformed : BasicCredentials
  given : (username : String) → (password : Option String) → BasicCredentials

abbrev pub of_content : List String → BasicCredentials
of_content [] = malformed
of_content (username ∷ rest) = given username (first rest)

module _ {Db Cache Response : Type 0} (P : Platform Db Cache Response) where
  abbrev pub decoded : Option String → BasicCredentials
  decoded none = malformed
  decoded (some text) = of_content (split b':' (P.crypto.decode_base64 text))

  abbrev pub basic_of : List String → BasicCredentials
  basic_of [] = absent
  basic_of (scheme ∷ rest) = if scheme == "Basic" then decoded (first rest) else absent

  unfoldable pub basic_auth : (authorization : Option String) → BasicCredentials
  unfolding split
  basic_auth none = absent
  basic_auth (some header) = if header == "" then absent else basic_of (split b' ' header)
