-- ===== src/Requests/Grants.antt =====
-- The operations of src/oauth bring nothing to a key that is not drawn.
use idp_be.Prelude.{◌≡◌, ℕ, String, Option, none, some, List}
use idp_be.Exec.{ok, ok->>=, ok-catch, TokenError, oauth_token, throw, throw_if, ◌>>◌, when}
use idp_be.Exec.Keeps.{
  Keeps, Keeps-bind, Keeps-pure, Keeps-optional, Keeps-by_state, Keeps-throw_if,
}
use idp_be.Schema.{
  CachedValue, User, TokenTo, TokenCache, AuthorizeCache, RefreshToken, authorization_type,
  token_type,
}
use idp_be.Redis
use idp_be.Platform.{Platform, World}
use idp_be.Platform.Laws.{RedisLaws}
use idp_be.Redis.Keeps.{Keeps-get_or_throw}
use idp_be.Database.Keeps.{CacheOnly, Keeps-query, steps_rules}
use idp_be.Client.Frame.{Keeps-get_client_by_uuid}
use idp_be.Oauth.Types.{
  AuthorizationReq, GrantContent, or_undefined, TokenTypeHint, access_token_hint,
  refresh_token_hint,
}
use idp_be.Oauth.Repository
use idp_be.Oauth.Repository.{is_expired}
use idp_be.Oauth.Service
use idp_be.Oauth.Service.{code_prefix, token_prefix}
use idp_be.Oauth.Frame.{Keeps-issue_refresh_token, Keeps-find_user_by_uuid, Keeps-sign_id_token}
use idp_be.Requests.Frame.{
  IsOther, IsOnly, IsOnly-CacheOnly, Keeps-with_token, Keeps-set, Keeps-del,
}

module _ {Db Cache Response : Type 0} (P : Platform Db Cache Response) (L : RedisLaws P.redis)
    (allowed : ℕ → CachedValue → Type 0) (full : String) where
  c : CacheOnly (IsOnly P allowed full)
  c = IsOnly-CacheOnly P allowed full

  Keeps-set_code :
      (token : String) (v : AuthorizeCache) (ttl : ℕ)
      → IsOther P full token
      → Keeps (IsOnly P allowed full) (Redis.set P authorization_type token v code_prefix ttl)
  Keeps-set_code token v ttl other = Keeps-set P L allowed full _ token v _ ttl other.code

  Keeps-set_access :
      (token : String) (v : TokenCache) (ttl : ℕ)
      → IsOther P full token
      → Keeps (IsOnly P allowed full) (Redis.set P token_type token v token_prefix ttl)
  Keeps-set_access token v ttl other = Keeps-set P L allowed full _ token v _ ttl other.access

  pub Keeps-consent :
      (scope : List String) (client_id : String) (user : User)
      → Keeps (IsOnly P allowed full) (Service.consent P scope client_id user)
  unfolding Service.consent Repository.upsert_consent
  Keeps-consent scope client_id user = search (steps_rules, c, Keeps-get_client_by_uuid P c) depth 9

  Keeps-find_consent :
      (user_uuid client_uuid : String)
      → Keeps (IsOnly P allowed full) (Repository.find_consent P user_uuid client_uuid)
  unfolding Repository.find_consent
  Keeps-find_consent user_uuid client_uuid = Keeps-query _ _

  pub Keeps-authorize :
      (req : AuthorizationReq) (user : User)
      → Keeps (IsOnly P allowed full) (Service.authorize P req user)
  unfolding Service.authorize
  Keeps-authorize req user =
      search
        (
          steps_rules,
          Keeps-find_consent,
          Keeps-get_client_by_uuid P c,
          Keeps-with_token P allowed full,
          Keeps-set_code,
        )
        depth 12

  Keeps-delete_row :
      (token : String)
      → Keeps (IsOnly P allowed full) (Repository.delete_refresh_token_by_token P token)
  unfolding Repository.delete_refresh_token_by_token
  Keeps-delete_row token = search (steps_rules, c)

  pub Keeps-revoke :
      (token : String) (hint : Option TokenTypeHint)
      → Keeps (IsOnly P allowed full) (Service.revoke P token hint)
  unfolding Service.revoke
  Keeps-revoke token (some access_token_hint) = Keeps-del P L allowed full token _
  Keeps-revoke token (some refresh_token_hint) = Keeps-delete_row token
  Keeps-revoke token none = search steps_rules

  Keeps-find_token_user :
      (entry : TokenCache) (to : TokenTo) (user_uuid : Option String)
      → Keeps (IsOnly P allowed full) (Service.find_token_user P entry to user_uuid)
  unfolding Service.find_token_user
  Keeps-find_token_user entry TokenTo.client user_uuid =
      search (steps_rules, Keeps-find_consent, Keeps-find_user_by_uuid P c) depth 9
  Keeps-find_token_user entry TokenTo.user user_uuid =
      search (steps_rules, Keeps-find_user_by_uuid P c)

  pub Keeps-userinfo :
      (token : String) (user_uuid : Option String)
      → Keeps (IsOnly P allowed full) (Service.userinfo P token user_uuid)
  unfolding Service.userinfo
  Keeps-userinfo token user_uuid =
      search (steps_rules, Keeps-get_or_throw, Keeps-find_token_user) depth 9

  pub Keeps-code_grant :
      (client_id code verifier : String)
      → Keeps (IsOnly P allowed full) (Service.code_grant P client_id code verifier)
  unfolding Service.code_grant
  Keeps-code_grant client_id code verifier =
      search
        (
          steps_rules,
          Keeps-get_or_throw,
          Keeps-with_token P allowed full,
          Keeps-del P L allowed full,
          Keeps-set_access,
          Keeps-issue_refresh_token P c,
          Keeps-sign_id_token P c,
        )
        depth 14

  -- An attempt on a code that was found and deleted ends as its remaining steps do.
  pub code_grant-IsOnly :
      (client_id code verifier : String) (entry : AuthorizeCache) (w w1 : World Db Cache)
      → Redis.get_or_throw P authorization_type code code_prefix w ≡ (ok entry, w)
      → Redis.del P code code_prefix w ≡ (ok tt, w1)
      → IsOnly P allowed full w1
      → IsOnly P allowed full (Service.code_grant P client_id code verifier w).1
  unfolding Service.code_grant
  code_grant-IsOnly client_id code verifier entry w w1 found deleted dead =
      rw (ok->>= _ _ w (ok-catch _ _ w found), ok->>= _ _ w deleted)
        ((Keeps-bind _ _ (Keeps-throw_if _ _) λ _. Keeps-bind _ _ (Keeps-throw_if _ _) λ _.
            Keeps-with_token P allowed full _ λ token other.
              Keeps-bind _ _ (Keeps-set_access token _ _ other) λ _.
                Keeps-bind _ _ (Keeps-optional _ _ (Keeps-issue_refresh_token P c _ _ _)) λ _.
                  Keeps-bind _ _ (Keeps-optional _ _ (Keeps-sign_id_token P c _ _ _ _))
                    λ _. Keeps-pure _).after
          w1 dead)

  Keeps-expired :
      (row : RefreshToken) (token : String)
      → Keeps (IsOnly P allowed full) (λ w.
        when
          (is_expired w.now row)
          (Repository.delete_refresh_token_by_token P token
            >> throw (oauth_token TokenError.invalid_grant))
          w)
  Keeps-expired row token =
      Keeps-by_state
        (λ w. when (is_expired w.now row) (
          Repository.delete_refresh_token_by_token P token
          >> throw (oauth_token TokenError.invalid_grant)))
        (λ w. search (steps_rules, Keeps-delete_row))

  Keeps-find_row :
      (token : String)
      → Keeps (IsOnly P allowed full) (Repository.find_refresh_token_by_token P token)
  unfolding Repository.find_refresh_token_by_token
  Keeps-find_row token = Keeps-bind _ _ (Keeps-query _ _) (λ row.
      Keeps-bind _ _
        (Keeps-by_state
          (λ w. throw_if (is_expired w.now row) (oauth_token TokenError.invalid_grant))
          (λ w. Keeps-throw_if _ _))
        (λ _. Keeps-pure _))

  Keeps-sign_refreshed :
      (row : RefreshToken) → Keeps (IsOnly P allowed full) (Service.sign_refreshed_id_token P row)
  unfolding Service.sign_refreshed_id_token
  Keeps-sign_refreshed row = search (steps_rules, Keeps-sign_id_token P c)

  pub Keeps-refresh_token_grant :
      (client_id given : Option String)
      → Keeps (IsOnly P allowed full) (Service.refresh_token_grant P client_id given)
  unfolding Service.refresh_token_grant
  Keeps-refresh_token_grant client_id given =
      search
        (
          steps_rules,
          Keeps-find_row,
          Keeps-expired,
          Keeps-with_token P allowed full,
          Keeps-set_access,
          Keeps-issue_refresh_token P c,
          Keeps-sign_refreshed,
          Keeps-delete_row,
        )
        depth 16

  pub Keeps-client_credentials_grant :
      (client_id secret : String) (scope : List String)
      → Keeps (IsOnly P allowed full) (Service.client_credentials_grant P client_id secret scope)
  unfolding Service.client_credentials_grant
  Keeps-client_credentials_grant client_id secret scope =
      search
        (
          steps_rules,
          Keeps-get_client_by_uuid P c,
          Keeps-with_token P allowed full,
          Keeps-set_access,
        )
        depth 12

  Keeps-code_grant_of :
      (client_id code verifier : Option String)
      → Keeps (IsOnly P allowed full) (Service.code_grant_of P client_id code verifier)
  unfolding Service.code_grant_of
  Keeps-code_grant_of (some client_id) code (some verifier) =
      Keeps-code_grant client_id (or_undefined code) verifier
  Keeps-code_grant_of (some client_id) code none =
      search (steps_rules, Keeps-get_or_throw, Keeps-del P L allowed full) depth 12
  Keeps-code_grant_of none code verifier =
      search (steps_rules, Keeps-get_or_throw, Keeps-del P L allowed full) depth 12

  Keeps-client_credentials_grant_of :
      (client_id secret : Option String) (scope : Option (List String))
      → Keeps (IsOnly P allowed full) (Service.client_credentials_grant_of P client_id secret scope)
  unfolding Service.client_credentials_grant_of
  Keeps-client_credentials_grant_of (some client_id) (some secret) (some scope) =
      Keeps-client_credentials_grant client_id secret scope
  Keeps-client_credentials_grant_of (some client_id) (some secret) none =
      search (steps_rules, Keeps-get_client_by_uuid P c) depth 12
  Keeps-client_credentials_grant_of (some client_id) none scope =
      search (steps_rules, Keeps-get_client_by_uuid P c) depth 12
  Keeps-client_credentials_grant_of none secret scope = search steps_rules

  pub Keeps-token : (body : GrantContent) → Keeps (IsOnly P allowed full) (Service.token P body)
  unfolding Service.token
  Keeps-token (GrantContent.authorization_code client_id code verifier) =
      Keeps-code_grant_of client_id code verifier
  Keeps-token (GrantContent.refresh_token client_id given) =
      Keeps-refresh_token_grant client_id given
  Keeps-token (GrantContent.client_credentials client_id secret scope) =
      Keeps-client_credentials_grant_of client_id secret scope
  Keeps-token GrantContent.other_grant = search steps_rules
