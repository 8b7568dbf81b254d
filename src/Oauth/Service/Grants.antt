-- ===== src/Oauth/Service/Grants.antt =====
-- `token` and its three grants (src/oauth/oauth.service.ts).
use idp_be.Prelude.{
  String, Bool, true, not, ◌&&◌, Option, none, some, List, ◌==◌, includes, is_blank,
}
use idp_be.Exec.{
  Exec, ok, Exception, library, internal, TokenError, oauth_token, pure, throw, catch, throw_if,
  for_each_throw_if, when, optional, require_text, ◌>>=◌, ◌>>◌,
}
use idp_be.Schema.{
  RefreshToken, CodeChallengeMethod, plain, s256, TokenTo, authorization_type, token_type,
}
use idp_be.Platform.{Platform, World}
use idp_be.Redis
use idp_be.Random.{random_bytes}
use idp_be.Client.Service as ClientService
use idp_be.User.Service as UserService
use idp_be.Oauth.Types.{GrantContent, TokenRes, or_undefined}
use idp_be.Oauth.Repository
use idp_be.Oauth.Repository.{is_expired}
use idp_be.Oauth.Service.Values.{
  code_prefix, token_prefix, access_token_ttl, three_months, id_token_claims,
}

module _ {Db Cache Response : Type 0} (P : Platform Db Cache Response) where
  unfoldable pub generate_opaque_token : Exec (World Db Cache) String
  unfolding pure random_bytes
  generate_opaque_token = do bytes ← random_bytes P 32; pure (P.crypto.base64url bytes)

  -- the test of the code verifier against the challenge, by its method
  abbrev pub verifier_matches : CodeChallengeMethod → (verifier challenge : String) → Bool
  verifier_matches s256 verifier challenge = P.crypto.sha256_base64url verifier == challenge
  verifier_matches plain verifier challenge = verifier == challenge

  -- `createRefreshToken` with a fresh token, which is returned
  unfoldable pub issue_refresh_token :
      (scopes : List String) → (user_uuid client_uuid : String) → Exec (World Db Cache) String
  unfolding pure
  issue_refresh_token scopes user_uuid client_uuid = do
    token ← generate_opaque_token
    Repository.create_refresh_token P token scopes user_uuid client_uuid none
    pure token

  -- an id token for the user whom the grant names
  unfoldable pub sign_id_token :
      (sub aud : String)
      → (nonce : Option String) → (scope : List String) → Exec (World Db Cache) String
  sign_id_token sub aud nonce scope = do
    user ← UserService.find_user_by_uuid P sub
    (λ w. (ok (P.jwt.sign_id_token (id_token_claims sub aud nonce scope user) w.now), w))

  unfoldable pub code_grant :
      (client_id code code_verifier : String) → Exec (World Db Cache) TokenRes
  code_grant client_id code code_verifier = do
    cache ←
        catch (Redis.get_or_throw P authorization_type code code_prefix)
          (λ _. oauth_token TokenError.invalid_grant)
    Redis.del P code code_prefix
    throw_if (not (cache.client_id == client_id)) (oauth_token TokenError.invalid_client)
    throw_if (not (verifier_matches cache.code_challenge_method code_verifier cache.code_challenge))
        (oauth_token TokenError.invalid_grant)
    access_token ← generate_opaque_token
    Redis.set P token_type access_token
        (record {
          to = TokenTo.user;
          sub = some cache.user_uuid;
          client_id = client_id;
          scope = cache.scope;
        })
        token_prefix access_token_ttl
    refresh_token ←
        optional (includes "offline_access" cache.scope)
          (issue_refresh_token cache.scope cache.user_uuid cache.client_id)
    id_token ←
        optional (includes "openid" cache.scope)
          (sign_id_token cache.user_uuid cache.client_id cache.nonce cache.scope)
    pure (record {
      access_token = access_token;
      token_type = "Bearer";
      expires_in = access_token_ttl;
      refresh_token = refresh_token;
      refresh_token_expires_in = some three_months;
      id_token = id_token;
      scope = cache.scope;
    })

  -- `refreshTokenData.clientUuid !== clientId`, for a client id that may be missing
  abbrev pub is_other_client : String → Option String → Bool
  is_other_client uuid none = true
  is_other_client uuid (some client_id) = not (uuid == client_id)

  -- the id token of a refresh, which needs a nonce
  unfoldable pub sign_refreshed_id_token : RefreshToken → Exec (World Db Cache) String
  unfolding sign_id_token
  sign_refreshed_id_token row = do
    throw_if (is_blank row.nonce) (oauth_token TokenError.invalid_request)
    sign_id_token row.user_uuid row.client_uuid row.nonce row.scopes

  -- The row's client is `clientId` once the test on it has passed.
  unfoldable pub refresh_token_grant :
      (client_id refresh_token : Option String) → Exec (World Db Cache) TokenRes
  refresh_token_grant client_id given = do
    token ← require_text given (oauth_token TokenError.invalid_request)
    row ← Repository.find_refresh_token_by_token P token
    (λ w.
        when (is_expired w.now row)
          (Repository.delete_refresh_token_by_token P token
            >> throw (oauth_token TokenError.invalid_grant))
          w)
    throw_if (is_other_client row.client_uuid client_id) (oauth_token TokenError.invalid_grant)
    access_token ← generate_opaque_token
    Redis.set P token_type access_token
        (record {
          to = TokenTo.user;
          sub = some row.user_uuid;
          client_id = row.client_uuid;
          scope = row.scopes;
        })
        token_prefix access_token_ttl
    new_refresh_token ←
        optional (includes "offline_access" row.scopes)
          (issue_refresh_token row.scopes row.user_uuid row.client_uuid)
    id_token ← optional (includes "openid" row.scopes) (sign_refreshed_id_token row)
    Repository.delete_refresh_token_by_token P token
    pure (record {
      access_token = access_token;
      token_type = "Bearer";
      expires_in = access_token_ttl;
      refresh_token = new_refresh_token;
      refresh_token_expires_in = some three_months;
      id_token = id_token;
      scope = row.scopes;
    })

  unfoldable pub client_credentials_grant :
      (client_id client_secret : String) → (scope : List String) → Exec (World Db Cache) TokenRes
  client_credentials_grant client_id client_secret scope = do
    client ← ClientService.get_client_by_uuid P client_id
    throw_if (not (P.crypto.bcrypt_compare client_secret client.secret))
        (oauth_token TokenError.invalid_client)
    for_each_throw_if scope
        (λ s. not (includes s client.scopes) && not (includes s client.optional_scopes))
        (oauth_token TokenError.invalid_scope)
    access_token ← generate_opaque_token
    Redis.set P token_type access_token
        (record { to = TokenTo.client; sub = none; client_id = client_id; scope = scope })
        token_prefix three_months
    pure (record {
      access_token = access_token;
      token_type = "Bearer";
      expires_in = three_months;
      refresh_token = none;
      refresh_token_expires_in = none;
      id_token = none;
      scope = scope;
    })

  -- The end of `codeGrant` for a missing verifier, which `update` throws on, and which is no text.
  abbrev pub without_verifier : CodeChallengeMethod → Exception
  without_verifier s256 = library "TypeError"
  without_verifier plain = oauth_token TokenError.invalid_grant

  -- `codeGrant` for a body in which fields may be missing. No entry is of a missing client; a
  -- missing code makes a key as any other text does.
  unfoldable pub code_grant_of :
      (client_id code code_verifier : Option String) → Exec (World Db Cache) TokenRes
  unfolding throw code_grant
  code_grant_of (some client_id) code (some code_verifier) =
      code_grant client_id (or_undefined code) code_verifier
  code_grant_of (some client_id) code none = do
    cache ←
        catch (Redis.get_or_throw P authorization_type (or_undefined code) code_prefix)
          (λ _. oauth_token TokenError.invalid_grant)
    Redis.del P (or_undefined code) code_prefix
    throw_if (not (cache.client_id == client_id)) (oauth_token TokenError.invalid_client)
    throw (without_verifier cache.code_challenge_method)
  code_grant_of none code code_verifier = do
    cache ←
        catch (Redis.get_or_throw P authorization_type (or_undefined code) code_prefix)
          (λ _. oauth_token TokenError.invalid_grant)
    Redis.del P (or_undefined code) code_prefix
    throw (oauth_token TokenError.invalid_client)

  -- `clientCredentialsGrant` for a body in which fields may be missing. Prisma refuses a missing
  -- key, bcrypt a missing secret, and a missing scope has no `forEach`.
  unfoldable pub client_credentials_grant_of :
      (client_id client_secret : Option String)
      → (scope : Option (List String)) → Exec (World Db Cache) TokenRes
  unfolding throw client_credentials_grant
  client_credentials_grant_of (some client_id) (some client_secret) (some scope) =
      client_credentials_grant client_id client_secret scope
  client_credentials_grant_of (some client_id) (some client_secret) none = do
    client ← ClientService.get_client_by_uuid P client_id
    throw_if (not (P.crypto.bcrypt_compare client_secret client.secret))
        (oauth_token TokenError.invalid_client)
    throw (library "TypeError")
  client_credentials_grant_of (some client_id) none scope = do
    ClientService.get_client_by_uuid P client_id
    throw (library "Illegal arguments")
  client_credentials_grant_of none client_secret scope = throw (internal "")

  unfoldable pub token : GrantContent → Exec (World Db Cache) TokenRes
  unfolding code_grant_of refresh_token_grant client_credentials_grant_of
  token (GrantContent.authorization_code client_id code verifier) =
      code_grant_of client_id code verifier
  token (GrantContent.refresh_token client_id given) = refresh_token_grant client_id given
  token (GrantContent.client_credentials client_id secret scope) =
      client_credentials_grant_of client_id secret scope
  token GrantContent.other_grant = throw (oauth_token TokenError.unsupported_grant_type)
