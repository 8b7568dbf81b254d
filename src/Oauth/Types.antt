-- ===== src/Oauth/Types.antt =====
-- The requests and answers of src/oauth: its DTOs after validation, and src/oauth/types.
use idp_be.Prelude.{ℕ, String, Bool, Option, none, some, List, [], ◌∷◌}
use idp_be.Schema.{CodeChallengeMethod}

-- `ClientScopeList`, `TokenScopeList` and `ScopeList`
abbrev pub client_scope_list : List String
client_scope_list = "profile" ∷ "email" ∷ "phone_number" ∷ "student_id" ∷ []

abbrev pub token_scope_list : List String
token_scope_list = "openid" ∷ "offline_access" ∷ []

-- `AuthorizationReqDto`
pub record AuthorizationReq : Type 0 where
  pub client_id : String
  pub code_challenge : String
  pub code_challenge_method : CodeChallengeMethod
  pub redirect_uri : String
  pub scope : List String
  pub state : Option String
  pub nonce : Option String

-- A missing text as a template literal writes it.
abbrev pub or_undefined : Option String → String
or_undefined none = "undefined"
or_undefined (some s) = s

-- `TokenReqDto`, which the controller casts to `GrantContentType`: its fields may all be missing.
-- `other_grant` is a grant type of no other kind.
pub data GrantContent : Type 0 where
  authorization_code : (client_id code code_verifier : Option String) → GrantContent
  refresh_token : (client_id refresh_token : Option String) → GrantContent
  client_credentials :
      (client_id client_secret : Option String) → (scope : Option (List String)) → GrantContent
  other_grant : GrantContent

-- `RevokeReqDto.tokenTypeHint`
pub data TokenTypeHint : Type 0 where
  access_token_hint refresh_token_hint : TokenTypeHint

-- `TokenResDto`
pub record TokenRes : Type 0 where
  pub access_token : String
  pub token_type : String
  pub expires_in : ℕ
  pub refresh_token : Option String
  pub refresh_token_expires_in : Option ℕ
  pub id_token : Option String
  pub scope : List String

-- `UserInfoResDto`. An outer `none` is `undefined`, an inner one `null`.
pub record UserInfoRes : Type 0 where
  pub sub : String
  pub name : Option String
  pub profile : Option (Option String)
  pub picture : Option (Option String)
  pub email : Option String
  pub student_id : Option String
  pub is_student_id_verified : Option Bool
  pub phone_number : Option String
  pub is_phone_number_verified : Option Bool
