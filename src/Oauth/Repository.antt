-- ===== src/Oauth/Repository.antt =====
-- src/oauth/oauth.repository.ts
use idp_be.Prelude.{ℕ, ◌+◌, ◌*◌, String, Bool, Option, List, ltb}
use idp_be.Exec.{Exec, TokenError, oauth_token, prisma, pure, throw_if, ◌>>=◌, ◌>>◌}
use idp_be.Schema.{RefreshToken, Consent}
use idp_be.Platform.{Platform, World, ConsentWhere}
use idp_be.Database.{query, statement, on_p2025}

-- `MAX_REFRESH_TOKEN_AGE`, 30 days in seconds
abbrev pub max_refresh_token_age : ℕ
max_refresh_token_age = 60 * 60 * 24 * 30

-- `expiresAt < new Date()`
abbrev pub is_expired : ℕ → RefreshToken → Bool
is_expired now t = ltb t.expires_at now

module _ {Db Cache Response : Type 0} (P : Platform Db Cache Response) where
  unfoldable pub find_refresh_token_by_token : String → Exec (World Db Cache) RefreshToken
  find_refresh_token_by_token token = do
    found ←
        query (P.prisma.refresh_tokens.find_unique_or_throw token)
          (on_p2025 (oauth_token TokenError.invalid_request))
    (λ w. throw_if (is_expired w.now found) (oauth_token TokenError.invalid_grant) w)
    pure found

  unfoldable pub create_refresh_token :
      (token : String)
      → (scopes : List String) → (user_uuid client_uuid : String) → (nonce : Option String)
      → Exec (World Db Cache) RefreshToken
  create_refresh_token token scopes user_uuid client_uuid nonce w =
      statement
        (P.prisma.refresh_tokens.create (λ _. record {
          token = token;
          expires_at = w.now + max_refresh_token_age * 1000;
          nonce = nonce;
          scopes = scopes;
          client_uuid = client_uuid;
          user_uuid = user_uuid;
        }))
        prisma w

  unfoldable pub delete_refresh_token_by_token : String → Exec (World Db Cache) (Unit {0})
  unfolding pure
  delete_refresh_token_by_token token = do
    statement (P.prisma.refresh_tokens.delete token)
        (on_p2025 (oauth_token TokenError.invalid_request))
    pure tt

  unfoldable pub find_consent : (user_uuid client_uuid : String) → Exec (World Db Cache) Consent
  find_consent user_uuid client_uuid =
      query
        (P.prisma.consents.find_unique_or_throw
          (ConsentWhere.pair (record { user_uuid = user_uuid; client_uuid = client_uuid })))
        (on_p2025 (oauth_token TokenError.invalid_grant))

  unfoldable pub upsert_consent :
      (user_uuid client_uuid : String) → List String → Exec (World Db Cache) (Unit {0})
  unfolding pure
  upsert_consent user_uuid client_uuid scopes = do
    statement
        (P.prisma.consents.upsert
          (ConsentWhere.pair (record { user_uuid = user_uuid; client_uuid = client_uuid }))
          (record { client_uuid = client_uuid; user_uuid = user_uuid; scopes = scopes })
          (λ c. record c { scopes = scopes }))
        prisma
    pure tt
