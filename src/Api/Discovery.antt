-- ===== src/Api/Discovery.antt =====
-- The discovery document: src/well-known/well-known.service.ts.
use Prim.Native.String.{[], ◌∷◌, slice, len}
use idp_be.Prelude.{
  String, ◌⋆◌, ◌++◌, ◌≡◌, refl, true, List, [], ◌∷◌, ◌==◌, every, includes, if◌then◌else◌,
}
use idp_be.Platform.{Platform}
use idp_be.Oauth.Types.{client_scope_list}
use idp_be.Api.Scope.{scope_list, grant_type_list}

-- `text.replace(pattern, '')`: the first occurrence goes.
unfoldable pub remove_first : (pattern text : String) → String
remove_first pattern [] = []
remove_first pattern (c ∷ s) =
    let rest = remove_first pattern s in
    if slice (c ∷ s) 0 (len pattern) == pattern
    then slice (c ∷ s) (len pattern) (len (c ∷ s))
    else c ∷ rest

pub record Discovery : Type 0 where
  pub issuer : String
  pub authorization_endpoint : String
  pub token_endpoint : String
  pub userinfo_endpoint : String
  pub jwks_uri : String
  pub response_types_supported : List String
  pub subject_types_supported : List String
  pub id_token_signing_alg_values_supported : List String
  pub scope_supported : List String
  pub token_endpoint_auth_methods_supported : List String
  pub claims_supported : List String
  pub grant_types_supported : List String

module _ {Db Cache Response : Type 0} (P : Platform Db Cache Response) where
  unfoldable pub discovery : Discovery
  unfolding remove_first
  discovery =
      let issuer = remove_first "api." P.config.base_url in
      record {
        issuer = issuer;
        authorization_endpoint = issuer ⋆ "/authorize";
        token_endpoint = P.config.base_url ⋆ "/oauth/token";
        userinfo_endpoint = P.config.base_url ⋆ "/oauth/userinfo";
        jwks_uri = P.config.base_url ⋆ "/oauth/certs";
        response_types_supported = "code" ∷ [];
        subject_types_supported = "public" ∷ [];
        id_token_signing_alg_values_supported = "ES256" ∷ [];
        scope_supported = scope_list;
        token_endpoint_auth_methods_supported = "client_secret_basic" ∷ "client_secret_post" ∷ [];
        claims_supported =
            ("sub" ∷ "aud" ∷ "exp" ∷ "iat" ∷ "iss" ∷ "auth_time" ∷ "nonce" ∷ [])
            ++ client_scope_list;
        grant_types_supported = "authorization_code" ∷ "refresh_token" ∷ "client_credentials" ∷ [];
      }

  -- The document announces each grant that the token endpoint takes.
  announces_grants :
      every (λ g. includes g (discovery.grant_types_supported)) grant_type_list ≡ true
  unfolding discovery includes
  announces_grants = refl
