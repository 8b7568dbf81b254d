-- ===== src/Schema.antt =====
-- The rows of prisma/schema.prisma, as far as the services read or write them. The columns
-- `createdAt` and `updatedAt`, which only listings return, are left out. Times are milliseconds.
-- `CachedValue` lists what the services store in Redis (src/oauth/types/authorizeCache.type.ts,
-- src/oauth/types/tokenCache.type.ts, the `Pick<User, 'uuid'>` of src/auth and plain texts).
use idp_be.Prelude.{ℕ, String, Bool, true, not, Option, none, some, List, ◌==◌}

pub data RoleType : Type 0 where
  owner admin member : RoleType

pub record User : Type 0 where
  pub uuid : String
  pub password : String
  pub profile : Option String
  pub picture : Option String
  pub name : String
  pub email : String
  pub student_id : String
  pub phone_number : String
  pub is_id_verified : Bool
  pub is_phone_number_verified : Bool

pub record Client : Type 0 where
  pub uuid : String
  pub secret : String
  pub name : String
  pub picture : Option String
  pub urls : List String
  pub delete_requested_at : Option ℕ
  pub id_token_allowed : Bool
  pub scopes : List String
  pub optional_scopes : List String

pub record UserClientRelation : Type 0 where
  pub user_uuid : String
  pub client_uuid : String
  pub role : RoleType

pub record RefreshToken : Type 0 where
  pub token : String
  pub expires_at : ℕ
  pub nonce : Option String
  pub scopes : List String
  pub client_uuid : String
  pub user_uuid : String

pub record Consent : Type 0 where
  pub client_uuid : String
  pub user_uuid : String
  pub scopes : List String

pub record Authenticator : Type 0 where
  pub id : String
  pub name : String
  pub icon : Option String
  pub public_key : List ℕ
  pub counter : ℕ
  pub user_uuid : String
  pub login_at : Option ℕ

-- `CodeChallengeMethodList`
pub data CodeChallengeMethod : Type 0 where
  plain s256 : CodeChallengeMethod

-- What `authorize` keeps for a code.
pub record AuthorizeCache : Type 0 where
  pub client_id : String
  pub user_uuid : String
  pub code_challenge : String
  pub code_challenge_method : CodeChallengeMethod
  pub redirect_uri : String
  pub scope : List String
  pub nonce : Option String

-- `TokenToList`
pub data TokenTo : Type 0 where
  user client : TokenTo

-- What an opaque access token stands for.
pub record TokenCache : Type 0 where
  pub to : TokenTo
  pub sub : Option String
  pub client_id : String
  pub scope : List String

-- A value that `JSON.stringify` has made a text of.
pub data CachedValue : Type 0 where
  authorization : AuthorizeCache → CachedValue
  token : TokenCache → CachedValue
  user_ref : String → CachedValue
  text : String → CachedValue

-- `JSON.parse(value) as T` for the types the services ask for. The cast is not checked in the
-- source; a value of another shape is `none` here.
pub record CacheType (T : Type 0) : Type 0 where
  pub stringify : T → CachedValue
  pub parse : CachedValue → Option T
  -- whether a value passes `!value`
  pub truthy : T → Bool

abbrev parse_authorization : CachedValue → Option AuthorizeCache
parse_authorization (authorization c) = some c
parse_authorization _ = none

abbrev parse_token : CachedValue → Option TokenCache
parse_token (token c) = some c
parse_token _ = none

abbrev parse_user_ref : CachedValue → Option String
parse_user_ref (user_ref u) = some u
parse_user_ref _ = none

abbrev parse_text : CachedValue → Option String
parse_text (text s) = some s
parse_text _ = none

-- Objects are truthy; a text is unless it is empty.
abbrev pub authorization_type : CacheType AuthorizeCache
authorization_type = record {
  stringify = authorization;
  parse = parse_authorization;
  truthy = λ _. true;
}

abbrev pub token_type : CacheType TokenCache
token_type = record { stringify = token; parse = parse_token; truthy = λ _. true }

abbrev pub user_ref_type : CacheType String
user_ref_type = record { stringify = user_ref; parse = parse_user_ref; truthy = λ _. true }

abbrev pub text_type : CacheType String
text_type = record { stringify = text; parse = parse_text; truthy = λ s. not (s == "") }
