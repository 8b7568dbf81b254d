-- ===== src/Oauth/Service/Endpoints.antt =====
-- `consent`, `authorize`, `revoke` and `userinfo` (src/oauth/oauth.service.ts).
use idp_be.Prelude.{String, ◌⋆◌, not, ◌&&◌, Option, none, some, List, ◌++◌, includes, is_blank}
use idp_be.Exec.{
  Exec, AuthorizeError, oauth_authorize, bad_request, unauthorized, pure, throw, catch, throw_if,
  for_each_throw_if, require_text, ◌>>=◌, ◌>>◌,
}
use idp_be.Schema.{User, TokenTo, TokenCache, authorization_type, token_type}
use idp_be.Platform.{Platform, World}
use idp_be.Redis
use idp_be.Client.Service as ClientService
use idp_be.User.Service as UserService
use idp_be.Oauth.Types.{
  token_scope_list, AuthorizationReq, TokenTypeHint, access_token_hint, refresh_token_hint,
  UserInfoRes,
}
use idp_be.Oauth.Repository
use idp_be.Oauth.Repository.{is_expired}
use idp_be.Oauth.Service.Values.{code_prefix, token_prefix, code_ttl, claim, state_part}
use idp_be.Oauth.Service.Grants.{generate_opaque_token}

module _ {Db Cache Response : Type 0} (P : Platform Db Cache Response) where
  unfoldable pub consent :
      (scope : List String) → (client_id : String) → User → Exec (World Db Cache) (Unit {0})
  consent scope client_id user = do
    client ← ClientService.get_client_by_uuid P client_id
    let allowed_scopes = client.scopes ++ client.optional_scopes
    for_each_throw_if scope (λ s. not (includes s allowed_scopes))
        (oauth_authorize AuthorizeError.invalid_scope)
    for_each_throw_if client.scopes (λ s. not (includes s scope))
        (oauth_authorize AuthorizeError.invalid_scope)
    Repository.upsert_consent P user.uuid client_id scope

  -- the redirection to the client with a fresh code
  abbrev pub redirect_url : (redirect_uri code : String) → (state : Option String) → String
  redirect_url redirect_uri code state =
      redirect_uri ⋆ ("?code=" ⋆ (code ⋆ ("&iss=" ⋆ (P.config.jwt_issuer ⋆ state_part state))))

  unfoldable pub authorize : AuthorizationReq → User → Exec (World Db Cache) String
  authorize req user = do
    client ←
        catch (ClientService.get_client_by_uuid P req.client_id)
          (λ _. oauth_authorize AuthorizeError.unauthorized_client)
    consent ← Repository.find_consent P user.uuid req.client_id
    for_each_throw_if req.scope
        (λ s. not (includes s consent.scopes) && not (includes s token_scope_list))
        (oauth_authorize AuthorizeError.invalid_scope)
    throw_if (not (includes req.redirect_uri client.urls))
        (oauth_authorize AuthorizeError.access_denied)
    throw_if (includes "openid" req.scope && not client.id_token_allowed)
        (oauth_authorize AuthorizeError.invalid_scope)
    throw_if (includes "openid" req.scope && is_blank req.nonce)
        (oauth_authorize AuthorizeError.invalid_request)
    code ← generate_opaque_token P
    Redis.set P authorization_type code
        (record {
          client_id = req.client_id;
          user_uuid = user.uuid;
          code_challenge = req.code_challenge;
          code_challenge_method = req.code_challenge_method;
          redirect_uri = req.redirect_uri;
          scope = req.scope;
          nonce = req.nonce;
        })
        code_prefix code_ttl
    pure (redirect_url req.redirect_uri code req.state)

  unfoldable pub revoke : String → Option TokenTypeHint → Exec (World Db Cache) (Unit {0})
  unfolding throw
  revoke given (some access_token_hint) = Redis.del P given token_prefix
  revoke given (some refresh_token_hint) = Repository.delete_refresh_token_by_token P given
  revoke given none = throw (bad_request "invalid_request")

  -- The user whose data a token of a client or of a user asks for. `findConsent` throws where
  -- there is no consent, so the test `!consent` never holds.
  unfoldable pub find_token_user :
      TokenCache → TokenTo → (user_uuid : Option String) → Exec (World Db Cache) User
  find_token_user data_of TokenTo.client user_uuid = do
    uuid ← require_text user_uuid (unauthorized "")
    consent ← Repository.find_consent P uuid data_of.client_id
    for_each_throw_if consent.scopes (λ v. not (includes v data_of.scope)) (unauthorized "")
    UserService.find_user_by_uuid P uuid
  find_token_user data_of TokenTo.user user_uuid = do
    uuid ← require_text data_of.sub (unauthorized "")
    UserService.find_user_by_uuid P uuid

  -- the answer of `userinfo`, by the scope of the token
  abbrev pub user_info : List String → User → UserInfoRes
  user_info scope user = record {
    sub = user.uuid;
    name = claim scope "profile" user.name;
    profile = claim scope "profile" user.profile;
    picture = claim scope "profile" user.picture;
    email = claim scope "email" user.email;
    student_id = claim scope "student_id" user.student_id;
    is_student_id_verified = claim scope "student_id" user.is_id_verified;
    phone_number = claim scope "phone_number" user.phone_number;
    is_phone_number_verified = claim scope "phone_number" user.is_phone_number_verified;
  }

  unfoldable pub userinfo :
      (token : String) → (user_uuid : Option String) → Exec (World Db Cache) UserInfoRes
  unfolding pure
  userinfo given user_uuid = do
    token_data ← Redis.get_or_throw P token_type given token_prefix
    user ← find_token_user token_data token_data.to user_uuid
    pure (user_info token_data.scope user)
