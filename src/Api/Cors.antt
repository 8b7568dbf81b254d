-- ===== src/Api/Cors.antt =====
-- Which origins may read an answer: the delegator of `app.enableCors` in src/main.ts.
use Prim.Native.String.{slice, len}
use idp_be.Prelude.{
  String, ◌⋆◌, ◌≡◌, refl, Bool, true, false, Option, none, some, List, [], ◌∷◌, ◌==◌, ◌&&◌, ◌||◌,
  if◌then◌else◌,
}
use idp_be.User.Service.{ends_with}
use idp_be.Api.Http.{first, split}
use idp_be.Api.Split.{lacks, split_lacking, split-question}

-- The middleware's answer. Methods and flags are the same in all of them.
pub data Cors : Type 0 where
  whitelisted_only : Cors
  allows : (origin : String) → Cors
  method_not_allowed : Cors

-- `xs.some(p)`
abbrev any_of : {A : Type 0} → (A → Bool) → List A → Bool
any_of p [] = false
any_of p (x ∷ xs) = p x || any_of p xs

-- `/^https:\/\/.*host$/` for a host without letters that a pattern reads in another way but dots,
-- which are escaped; a header has no line breaks.
unfoldable pub https_site : (host origin : String) → Bool
unfolding ends_with
https_site host origin =
    slice origin 0 8 == "https://" && ends_with host (slice origin 8 (len origin))

abbrev pub hosts : List String
hosts =
    ".idp-fe-49s.pages.dev" ∷ ".idp-fe.pages.dev" ∷ "idp.gistory.me" ∷ ".account-fe-bvs.pages.dev"
    ∷ ".account-fe.pages.dev" ∷ "account.gistory.me" ∷ []

unfoldable pub whitelisted : String → Bool
unfolding https_site
whitelisted origin =
    any_of (λ host. https_site host origin) hosts
    || (origin == "http://localhost:3000" || origin == "http://localhost:5173")

abbrev pub path_whitelist : List String
path_whitelist =
    "/oauth/token" ∷ "/oauth/certs" ∷ "/oauth/userinfo" ∷ "/.well-known/openid-configuration" ∷ []

unfoldable pub public_path : Option String → Bool
unfolding ends_with
public_path none = false
public_path (some pathname) = any_of (λ path. ends_with path pathname) path_whitelist

unfoldable pub cors : (origin : Option String) → (url : String) → Cors
unfolding whitelisted public_path split
cors none url = whitelisted_only
cors (some origin) url =
    if origin == ""
    then whitelisted_only
    else if public_path (first (split b'?' url))
    then allows origin
    else if whitelisted origin
    then allows origin
    else method_not_allowed

-- What follows the first question mark does not count.
cors_ignores_query :
    (origin : Option String) (path query : String)
    → lacks b'?' path ≡ true
    → cors origin (path ⋆ ("?" ⋆ query)) ≡ cors origin path
unfolding cors
cors_ignores_query none path query h = refl
cors_ignores_query (some origin) path query h =
    rw (split-question path query h, split_lacking b'?' path h)
