-- ===== src/Api/Views.antt =====
-- What the response DTOs leave of the rows: src/client/dto/res.dto.ts, src/user/dto/res.dto.ts and
-- src/oauth/dto/res.dto.ts, as `ClassSerializerInterceptor` writes them. Columns that `Schema`
-- leaves out are left out here too.
use idp_be.Prelude.{ℕ, String, Bool, Option, List}
use idp_be.Schema.{User, Client}
use idp_be.Platform.{UserConsent, ConsentClient}
use idp_be.Oauth.Types.{TokenRes}
use idp_be.Oauth.Service.{join_words}

-- `ClientResDto`
pub record ClientRes : Type 0 where
  pub client_id : String
  pub name : String
  pub urls : List String
  pub picture : Option String
  pub scopes : List String
  pub optional_scopes : List String
  pub id_token_allowed : Bool
  pub delete_requested_at : Option ℕ

abbrev pub client_res : Client → ClientRes
client_res c = record {
  client_id = c.uuid;
  name = c.name;
  urls = c.urls;
  picture = c.picture;
  scopes = c.scopes;
  optional_scopes = c.optional_scopes;
  id_token_allowed = c.id_token_allowed;
  delete_requested_at = c.delete_requested_at;
}

-- `ClientPublicResDto`
pub record ClientPublicRes : Type 0 where
  pub client_id : String
  pub name : String
  pub picture : Option String
  pub scopes : List String
  pub optional_scopes : List String

abbrev pub client_public_res : Client → ClientPublicRes
client_public_res c = record {
  client_id = c.uuid;
  name = c.name;
  picture = c.picture;
  scopes = c.scopes;
  optional_scopes = c.optional_scopes;
}

-- `ClientCredentialResDto`
pub record ClientCredentialRes : Type 0 where
  pub client_id : String
  pub client_secret : String

abbrev pub client_credential_res : Client → ClientCredentialRes
client_credential_res c = record { client_id = c.uuid; client_secret = c.secret }

-- `UserResDto`
pub record UserRes : Type 0 where
  pub uuid : String
  pub name : String
  pub picture : Option String
  pub profile : Option String
  pub email : String
  pub student_id : String
  pub phone_number : String
  pub is_id_verified : Bool
  pub is_phone_number_verified : Bool

abbrev pub user_res : User → UserRes
user_res u = record {
  uuid = u.uuid;
  name = u.name;
  picture = u.picture;
  profile = u.profile;
  email = u.email;
  student_id = u.student_id;
  phone_number = u.phone_number;
  is_id_verified = u.is_id_verified;
  is_phone_number_verified = u.is_phone_number_verified;
}

-- `UserConsentResDto`
pub record UserConsentRes : Type 0 where
  pub client : ConsentClient
  pub client_uuid : String
  pub scopes : List String

abbrev pub user_consent_res : UserConsent → UserConsentRes
user_consent_res c = record {
  client = c.client;
  client_uuid = c.consent.client_uuid;
  scopes = c.consent.scopes;
}

-- `TokenResDto` as JSON, with its scope as one text.
pub record TokenBody : Type 0 where
  pub access_token : String
  pub token_type : String
  pub expires_in : ℕ
  pub refresh_token : Option String
  pub refresh_token_expires_in : Option ℕ
  pub id_token : Option String
  pub scope : String

abbrev pub token_body : TokenRes → TokenBody
token_body res = record {
  access_token = res.access_token;
  token_type = res.token_type;
  expires_in = res.expires_in;
  refresh_token = res.refresh_token;
  refresh_token_expires_in = res.refresh_token_expires_in;
  id_token = res.id_token;
  scope = join_words res.scope;
}
