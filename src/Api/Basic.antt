-- ===== src/Api/Basic.antt =====
-- What the token endpoint makes of basic credentials.
use text.Mathlib.TextLemmas.{cons-append, cons≢nil}
use idp_be.Prelude.{
  String, ◌⋆◌, ◌≡◌, refl, sym, ap, ◌∙◌, true, false, some, [], ◌∷◌, ◌==◌, eq_iff, inl, inr,
  Bool-cases,
}
use idp_be.Exec.{pure, ◌>>=◌}
use idp_be.Platform.{Platform, World}
use idp_be.Oauth.Types.{GrantContent}
use idp_be.Oauth.Service
use idp_be.Api.Http.{split, first, given, of_content, basic_auth}
use idp_be.Api.Split.{lacks, split_lacking, split-append, split_at_space, split-colon}
use idp_be.Api.Views.{token_body}
use idp_be.Api.OauthController
use idp_be.Api.OauthController.{grant_with}

-- `Basic`, a space, and the encoded credentials
abbrev pub basic_header : (encoded : String) → String
basic_header encoded = "Basic" ⋆ (" " ⋆ encoded)

header-full : (encoded : String) → (basic_header encoded == "") ≡ false
header-full encoded = elim (Bool-cases (basic_header encoded == "")) [
  | inl blank ↦ absurd (
      cons≢nil (sym (cons-append _ _ (" " ⋆ encoded)) ∙ (eq_iff (basic_header encoded) "").0 blank))
  | inr full ↦ full
]

split-basic_header :
    (encoded : String)
    → lacks b' ' encoded ≡ true
    → split b' ' (basic_header encoded) ≡ "Basic" ∷ encoded ∷ []
unfolding lacks
split-basic_header encoded h =
    split-append b' ' "Basic" (" " ⋆ encoded) (encoded ∷ []) refl
      (split_at_space encoded ∙ ap (λ ws. "" ∷ ws) (split_lacking b' ' encoded h))

-- A body whose client is another one.
abbrev pub for_client : (username password : String) → GrantContent → GrantContent
for_client username password (GrantContent.authorization_code _ code verifier) =
    GrantContent.authorization_code (some username) code verifier
for_client username password (GrantContent.refresh_token _ refresh_token) =
    GrantContent.refresh_token (some username) refresh_token
for_client username password (GrantContent.client_credentials _ _ scope) =
    GrantContent.client_credentials (some username) (some password) scope
for_client username password GrantContent.other_grant = GrantContent.other_grant

module _ {Db Cache Response : Type 0} (P : Platform Db Cache Response) where
  -- The guard takes the credentials apart at their first colon, and what stands between the first
  -- colon and the next is the password.
  pub basic_auth_reads :
      (username password encoded : String)
      → lacks b' ' encoded ≡ true
      → P.crypto.decode_base64 encoded ≡ username ⋆ (":" ⋆ password)
      → lacks b':' username ≡ true
      → basic_auth P (some (basic_header encoded)) ≡ given username (first (split b':' password))
  unfolding basic_auth
  basic_auth_reads username password encoded clean decodes plain =
      rw (header-full encoded, split-basic_header encoded clean)
        (ap (λ s. of_content (split b':' s)) decodes
          ∙ ap of_content (split-colon username password plain))

  reissued :
      (username password : String) (body : GrantContent) (w : World Db Cache)
      → grant_with P (given username (some password)) body w
        ≡ (Service.token P (for_client username password body) >>= λ res. pure (token_body res)) w
  reissued username password (GrantContent.authorization_code _ code verifier) w = refl
  reissued username password (GrantContent.refresh_token _ refresh_token) w = refl
  reissued username password (GrantContent.client_credentials _ _ scope) w = refl
  reissued username password GrantContent.other_grant w = refl

  -- The token endpoint grants a client that sends basic credentials, neither of them with a colon,
  -- what the service grants for the body with that name, and with that password as the secret, in
  -- place of those that the body has; this is so for every kind of grant.
  pub token_takes_basic :
      (username password encoded : String) (body : GrantContent) (w : World Db Cache)
      → lacks b' ' encoded ≡ true
      → P.crypto.decode_base64 encoded ≡ username ⋆ (":" ⋆ password)
      → lacks b':' username ≡ true
      → lacks b':' password ≡ true
      → OauthController.token P (some (basic_header encoded)) body w
        ≡ (Service.token P (for_client username password body) >>= λ res. pure (token_body res)) w
  unfolding OauthController.token
  token_takes_basic username password encoded body w clean decodes plain plain' =
      ap (λ b. grant_with P b body w)
        (basic_auth_reads username password encoded clean decodes plain
          ∙ ap (λ ws. given username (first ws)) (split_lacking b':' password plain'))
      ∙ reissued username password body w
