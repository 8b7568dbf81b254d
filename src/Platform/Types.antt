-- ===== src/Platform/Types.antt =====
-- The interfaces of the libraries and services that src/ calls. `Db` and `Cache` are the states
-- behind the Prisma client and the Redis client.
use idp_be.Prelude.{ℕ, ◌+◌, String, Bool, Option, List}
use idp_be.Exec.{Result, PrismaError}
use idp_be.Schema.{
  User, Client, UserClientRelation, RefreshToken, Consent, Authenticator, RoleType, CachedValue,
}

-- One Prisma model: its `where` clauses, its rows by key, and its calls. `create` is handed the
-- row as a function of the id that the engine generates. `row` is the content of the table,
-- which only laws and theorems speak of.
pub record Table (Db Where Key Row : Type 0) : Type 0 where
  pub find_unique : Where → Db → Result PrismaError (Option Row)
  pub find_unique_or_throw : Where → Db → Result PrismaError Row
  pub find_many : Where → Db → Result PrismaError (List Row)
  pub create : (String → Row) → Db → Result PrismaError Row × Db
  pub update : Where → (Row → Row) → Db → Result PrismaError Row × Db
  pub upsert : Where → Row → (Row → Row) → Db → Result PrismaError Row × Db
  pub delete : Where → Db → Result PrismaError Row × Db
  pub row : Db → Key → Option Row

pub data UserWhere : Type 0 where
  by_uuid by_email : String → UserWhere

pub data ClientWhere : Type 0 where
  by_uuid : String → ClientWhere
  -- `{ uuid, userLinks: { some: { userUuid } } }`
  by_uuid_and_user : (uuid user_uuid : String) → ClientWhere
  -- `{ userLinks: { some: { userUuid } } }`
  linked_to : (user_uuid : String) → ClientWhere

pub data AuthenticatorWhere : Type 0 where
  by_id : String → AuthenticatorWhere
  of_user : String → AuthenticatorWhere

-- `userUuid_clientUuid` and the other compound keys.
pub record PairKey : Type 0 where
  pub user_uuid : String
  pub client_uuid : String

pub data ConsentWhere : Type 0 where
  pair : PairKey → ConsentWhere
  of_user : String → ConsentWhere

-- src/client/types/clientMember.type.ts
pub record ClientMember : Type 0 where
  pub uuid : String
  pub name : String
  pub email : String
  pub picture : Option String
  pub roles : List RoleType

-- A consent with what is selected of its client (src/user/types/userConsent.type.ts).
pub record ConsentClient : Type 0 where
  pub name : String
  pub uuid : String
  pub scopes : List String
  pub optional_scopes : List String

pub record UserConsent : Type 0 where
  pub consent : Consent
  pub client : ConsentClient

pub record Prisma (Db : Type 0) : Type 0 where
  pub users : Table Db UserWhere String User
  pub clients : Table Db ClientWhere String Client
  pub relations : Table Db PairKey PairKey UserClientRelation
  pub refresh_tokens : Table Db String String RefreshToken
  pub consents : Table Db ConsentWhere PairKey Consent
  pub authenticators : Table Db AuthenticatorWhere String Authenticator
  -- `client.create` with a nested `userLinks.create`
  pub create_client_linked :
      (String → Client) → (user_uuid : String) → RoleType → Db → Result PrismaError Client × Db
  -- `client.update` with a nested `userLinks.create` or `userLinks.delete`
  pub link_user : (uuid : String) → UserClientRelation → Db → Result PrismaError Client × Db
  pub unlink_user : (uuid : String) → PairKey → Db → Result PrismaError Client × Db
  -- `user.findMany` by a membership of the client, with the role in it
  pub find_members : (client_uuid : String) → Db → Result PrismaError (List ClientMember)
  pub find_user_consents : (user_uuid : String) → Db → Result PrismaError (List UserConsent)
  -- `$transaction(async (prisma) => …)`
  pub transaction :
      (Db → Result PrismaError (Unit {0}) × Db) → Db → Result PrismaError (Unit {0}) × Db

-- `ioredis`: `GET`, `SET … EX ttl` and `DEL` at a time. `live` is what a key holds at a time.
pub record RedisClient (Cache : Type 0) : Type 0 where
  pub get : (key : String) → (now : ℕ) → Cache → Result String (Option CachedValue)
  pub set :
      (key : String)
      → CachedValue
      → (ttl_seconds : ℕ) → (now : ℕ) → Cache
      → Result String (Unit {0}) × Cache
  pub del : (key : String) → (now : ℕ) → Cache → Result String (Unit {0}) × Cache
  pub live : Cache → (now : ℕ) → (key : String) → Option CachedValue

-- The claims that `codeGrant` and `refreshTokenGrant` sign. An outer `none` is `undefined`, an
-- inner one `null`.
pub record IdTokenClaims : Type 0 where
  pub sub : String
  pub aud : String
  pub nonce : Option String
  pub scope : String
  pub profile : Option (Option String)
  pub picture : Option (Option String)
  pub name : Option String
  pub email : Option String
  pub student_id : Option String
  pub phone_number : Option String

-- src/verify/types/verification.type.ts
pub data VerificationType : Type 0 where
  email phone_number student_id : VerificationType

-- src/verify/types/verificationJwtPayload.type.ts
pub record VerificationPayload : Type 0 where
  pub iss : String
  pub sub : String
  pub hint : VerificationType

-- `crypto` and `bcryptjs`. The random functions take the number of draws made before.
pub record Crypto : Type 0 where
  pub random_bytes : (drawn size : ℕ) → List ℕ
  pub random_int : (drawn max : ℕ) → ℕ
  pub random_uuid : (drawn : ℕ) → String
  pub base64 : List ℕ → String
  pub base64url : List ℕ → String
  -- `Buffer.from(s, 'base64').toString()`
  pub decode_base64 : String → String
  pub sha256_base64url : String → String
  pub bcrypt_compare : (password hash : String) → Bool
  pub bcrypt_hash : (password : String) → (drawn : ℕ) → String

pub record Jwt : Type 0 where
  pub sign_id_token : IdTokenClaims → (now : ℕ) → String
  pub sign_subject : (subject : String) → (now : ℕ) → String
  pub sign_verification : VerificationPayload → (now : ℕ) → String
  pub verify : (token issuer : String) → (now : ℕ) → Result String VerificationPayload
  -- `passport-jwt`: the bearer token of an `Authorization` header, and the check of signature,
  -- issuer, audience and expiry, which gives the claim `sub`
  pub bearer_token : (authorization : String) → Option String
  pub verify_user : (token : String) → (now : ℕ) → Result String (Option String)

-- What leaves the service.
pub data Message : Type 0 where
  mail : (to subject content : String) → Message
  sms : (to text : String) → Message
  slack : (text : List String) → Message
  delete_object : (key : String) → Message

-- Outcomes of `parsePhoneNumberWithError(text, 'KR')`.
pub data PhoneResult : Type 0 where
  parsed : (country national : String) → PhoneResult
  parse_error : PhoneResult
  other_error : PhoneResult

-- What `fetch` of the student-id service gives: no answer, an error status, or its JSON.
pub data StudentIdReply : Type 0 where
  timed_out failed : StudentIdReply
  bad_status : StudentIdReply
  reply : (result : String) → (student_no : Option String) → StudentIdReply

-- `@simplewebauthn/server`
pub record WebAuthn (Response : Type 0) : Type 0 where
  pub authentication_challenge : (rp_id : String) → (drawn : ℕ) → String
  pub registration_challenge :
      (rp_id : String) → (user_id user_name : String) → List String → (drawn : ℕ) → String
  pub response_id : Response → String
  -- the new counter, where the response is verified
  pub verify_authentication :
      Response → (challenge origin rp_id : String) → Authenticator → Result String (Option ℕ)
  -- the credential's id, public key and counter, where the response is verified
  pub verify_registration :
      Response → (challenge origin rp_id : String) → Result String (Option (String × List ℕ × ℕ))

-- The values that `ConfigService` is asked for. `ms` of the package `ms` gives milliseconds.
pub record Config : Type 0 where
  pub jwt_issuer : String
  pub base_url : String
  pub jwt_expire : String
  pub refresh_token_expire : String
  pub passkey_rp_origin : String
  pub passkey_rp_id : String
  pub aws_s3_bucket : String
  pub aws_s3_region : String

pub record Platform (Db Cache Response : Type 0) : Type 0 where
  pub prisma : Prisma Db
  pub redis : RedisClient Cache
  pub crypto : Crypto
  pub jwt : Jwt
  pub config : Config
  pub web_authn : WebAuthn Response
  pub ms : String → ℕ
  pub parse_phone : String → PhoneResult
  pub fetch_student_id : (name birth_date : String) → (now : ℕ) → StudentIdReply
  -- whether a message goes out, by what went out before
  pub deliver : Message → List Message → Result String (Unit {0})
  pub presigned_url : (key : String) → (length now : ℕ) → Result String String
  pub render_code : String → String
  pub render_temporary_password : String → String
  pub lower_case : String → String
  -- `isEmail` of class-validator
  pub is_email : String → Bool
  -- the bytes of `Buffer.from(text)`
  pub buffer : String → List ℕ
  -- `crypto.timingSafeEqual` on buffers of one length; on others it throws
  pub timing_safe_equal : (a b : List ℕ) → Bool

-- The state that a request runs on: the database, the cache, the clock in milliseconds, the
-- number of random draws made, and what has been sent.
pub record World (Db Cache : Type 0) : Type 0 where
  pub db : Db
  pub cache : Cache
  pub now : ℕ
  pub drawn : ℕ
  pub sent : List Message

-- The same state at a later time.
abbrev pub later : {Db Cache : Type 0} → ℕ → World Db Cache → World Db Cache
later ms w = record w { now = w.now + ms }
