-- ===== src/Tests/Sample.antt =====
-- A concrete platform and a concrete state, at which the theorems are applied.
use Prim.Native.Char.{code}
use Prim.Native.String.{[], ◌∷◌}
use idp_be.Random.{is_code}
use idp_be.Prelude.{
  false, ℕ, zero, suc, ◌*◌, String, ◌⋆◌, ◌≡◌, ◌↔◌, refl, Bool, true, ◌&&◌, Option, none, some, List,
  [], ◌∷◌, arith, if◌then◌else◌, ◌==◌, eq_iff,
}
use idp_be.Exec.{Result, ok, err, PrismaError, p2025, p2002}
use idp_be.Schema.{
  User, Client, UserClientRelation, RefreshToken, Consent, Authenticator, owner, member,
}
use idp_be.Platform.{
  Platform, World, Prisma, Crypto, Jwt, Config, WebAuthn, UserWhere, ClientWhere,
  AuthenticatorWhere, ConsentWhere, PairKey, VerificationPayload, VerificationType, PhoneResult,
  StudentIdReply,
}
use idp_be.Platform.Laws.{TableLaws, relation_key}
use idp_be.Tests.Store.{Entries, sample_redis, sample_table}
use idp_be.Tests.StoreLaws.{sample_table_laws}

abbrev codes : String → List ℕ
codes [] = []
codes (c ∷ s) = code c ∷ codes s

abbrev same_codes : List ℕ → List ℕ → Bool
same_codes [] [] = true
same_codes (m ∷ a) (n ∷ b) = is_code m n && same_codes a b
same_codes _ _ = false

pub record SampleDb : Type 0 where
  pub users : String → Option User
  pub clients : String → Option Client
  pub relations : PairKey → Option UserClientRelation
  pub refresh_tokens : String → Option RefreshToken
  pub consents : PairKey → Option Consent
  pub authenticators : String → Option Authenticator

abbrev pub same_pair : PairKey → PairKey → Bool
same_pair a b = a.user_uuid == b.user_uuid && a.client_uuid == b.client_uuid

pub same_pair_iff : (a b : PairKey) → (same_pair a b ≡ true) ↔ (a ≡ b)
same_pair_iff a b =
    ground (arith, eq_iff a.user_uuid b.user_uuid, eq_iff a.client_uuid b.client_uuid)

-- The one user and email of the sample.
abbrev resolve_user : UserWhere → SampleDb → Option String
resolve_user (UserWhere.by_uuid u) db = some u
resolve_user (UserWhere.by_email e) db = if e == "a@gm.gist.ac.kr" then some "alice" else none

abbrev pub resolve_client : ClientWhere → SampleDb → Option String
resolve_client (ClientWhere.by_uuid u) db = some u
resolve_client (ClientWhere.by_uuid_and_user u user_uuid) db =
    elim (db.relations (record { user_uuid = user_uuid; client_uuid = u })) [
      | none ↦ none
      | some _ ↦ some u
    ]
resolve_client (ClientWhere.linked_to user_uuid) db = none

abbrev resolve_consent : ConsentWhere → SampleDb → Option PairKey
resolve_consent (ConsentWhere.pair k) db = some k
resolve_consent (ConsentWhere.of_user u) db = none

abbrev pub resolve_authenticator : AuthenticatorWhere → SampleDb → Option String
resolve_authenticator (AuthenticatorWhere.by_id i) db = some i
resolve_authenticator (AuthenticatorWhere.of_user u) db = none

abbrev pub with_relation :
    (uuid : String)
    → PairKey
    → Option UserClientRelation
    → Option Client
    → SampleDb
    → Result PrismaError Client × SampleDb
with_relation uuid k r none db = (err p2025, db)
with_relation uuid k r (some c) db =
    (ok c, record db { relations = λ j. if same_pair k j then r else db.relations j })

abbrev pub link :
    (uuid : String)
    → UserClientRelation
    → Option UserClientRelation
    → SampleDb
    → Result PrismaError Client × SampleDb
link uuid r none db = with_relation uuid (relation_key r) (some r) (db.clients uuid) db
link uuid r (some _) db = (err p2002, db)

abbrev pub unlink :
    (uuid : String)
    → PairKey
    → Option UserClientRelation
    → SampleDb
    → Result PrismaError Client × SampleDb
unlink uuid k none db = (err p2025, db)
unlink uuid k (some _) db = with_relation uuid k none (db.clients uuid) db

abbrev pub rolled_back :
    SampleDb → Result PrismaError (Unit {0}) × SampleDb → Result PrismaError (Unit {0}) × SampleDb
rolled_back before (ok u, db) = (ok u, db)
rolled_back before (err e, db) = (err e, before)

abbrev pub sample_prisma : Prisma SampleDb
sample_prisma = record {
  users =
      sample_table (λ a b. a == b) (λ (u : User). u.uuid) resolve_user (λ db. db.users)
        (λ s db. record db { users = s });
  clients =
      sample_table (λ a b. a == b) (λ (c : Client). c.uuid) resolve_client (λ db. db.clients)
        (λ s db. record db { clients = s });
  relations =
      sample_table same_pair relation_key (λ k db. some k) (λ db. db.relations)
        (λ s db. record db { relations = s });
  refresh_tokens =
      sample_table (λ a b. a == b) (λ (r : RefreshToken). r.token) (λ k db. some k)
        (λ db. db.refresh_tokens) (λ s db. record db { refresh_tokens = s });
  consents =
      sample_table same_pair
        (λ (c : Consent). record { user_uuid = c.user_uuid; client_uuid = c.client_uuid })
        resolve_consent (λ db. db.consents) (λ s db. record db { consents = s });
  authenticators =
      sample_table (λ a b. a == b) (λ (a : Authenticator). a.id) resolve_authenticator
        (λ db. db.authenticators) (λ s db. record db { authenticators = s });
  create_client_linked = λ make user_uuid role db. (
    ok (make "new"),
    record db {
      clients = λ k. if "new" == k then some (make "new") else db.clients k;
      relations = λ k.
          if same_pair (record { user_uuid = user_uuid; client_uuid = "new" }) k
          then some (record { user_uuid = user_uuid; client_uuid = "new"; role = role })
          else db.relations k;
    },
  );
  link_user = λ uuid r db. link uuid r (db.relations (relation_key r)) db;
  unlink_user = λ uuid k db. unlink uuid k (db.relations k) db;
  find_members = λ uuid db. ok [];
  find_user_consents = λ uuid db. ok [];
  transaction = λ body db. rolled_back db (body db);
}

-- "t", "tt", "ttt", … for the first draws
abbrev pub tally : ℕ → String
tally zero = "t"
tally (suc n) = "t" ⋆ tally n

abbrev first_of : List ℕ → ℕ
first_of [] = 0
first_of (x ∷ _) = x

abbrev sample_crypto : Crypto
sample_crypto = record {
  random_bytes = λ drawn size. drawn ∷ [];
  random_int = λ drawn max. drawn;
  random_uuid = λ drawn. tally drawn;
  base64 = λ bytes. tally (first_of bytes);
  base64url = λ bytes. tally (first_of bytes);
  decode_base64 = λ s. s;
  sha256_base64url = λ s. "sha:" ⋆ s;
  bcrypt_compare = λ password hash. ("hash:" ⋆ password) == hash;
  bcrypt_hash = λ password drawn. "hash:" ⋆ password;
}

abbrev sample_verify : String → String → ℕ → Result String VerificationPayload
sample_verify token issuer now =
    if token == "jwt-email"
    then ok (record { iss = issuer; sub = "a@gm.gist.ac.kr"; hint = VerificationType.email })
    else if token == "jwt-student"
    then ok (record { iss = issuer; sub = "20250001"; hint = VerificationType.student_id })
    else if token == "jwt-phone"
    then ok (record { iss = issuer; sub = "01012345678"; hint = VerificationType.phone_number })
    else err "invalid signature"

abbrev sample_jwt : Jwt
sample_jwt = record {
  sign_id_token = λ claims now. "id." ⋆ claims.sub;
  sign_subject = λ subject now. "access." ⋆ subject;
  sign_verification = λ payload now. "verification." ⋆ payload.sub;
  verify = sample_verify;
  bearer_token = λ header. if header == "Bearer access.alice" then some "access.alice" else none;
  verify_user = λ token now. if token == "access.alice" then ok (some "alice") else err "invalid";
}

abbrev sample_web_authn : WebAuthn String
sample_web_authn = record {
  authentication_challenge = λ rp drawn. "challenge";
  registration_challenge = λ rp user_id name exclude drawn. "challenge";
  response_id = λ response. "key";
  verify_authentication = λ response challenge origin rp authenticator.
      if response == challenge then ok (some (suc authenticator.counter)) else ok none;
  verify_registration = λ response challenge origin rp.
      if response == challenge then ok (some ("key", [], 0)) else ok none;
}

abbrev sample_config : Config
sample_config = record {
  jwt_issuer = "https://account.gistory.me";
  base_url = "https://api.account.gistory.me";
  jwt_expire = "1h";
  refresh_token_expire = "30d";
  passkey_rp_origin = "https://account.gistory.me";
  passkey_rp_id = "account.gistory.me";
  aws_s3_bucket = "bucket";
  aws_s3_region = "region";
}

abbrev pub sample : Platform SampleDb Entries String
sample = record {
  prisma = sample_prisma;
  redis = sample_redis;
  crypto = sample_crypto;
  jwt = sample_jwt;
  config = sample_config;
  web_authn = sample_web_authn;
  ms = λ s. if s == "30d" then 30 * 24 * 60 * 60 * 1000 else 60 * 60 * 1000;
  parse_phone = λ s. PhoneResult.parsed "KR" s;
  fetch_student_id = λ name birth now. StudentIdReply.reply "true" (some "20250001");
  deliver = λ m before. ok tt;
  presigned_url = λ key length now. ok key;
  render_code = λ code. code;
  render_temporary_password = λ password. password;
  lower_case = λ s. s;
  is_email = λ s. true;
  buffer = codes;
  timing_safe_equal = same_codes;
}

abbrev pub alice : User
alice = record {
  uuid = "alice";
  password = "hash:secret";
  profile = none;
  picture = none;
  name = "Alice";
  email = "a@gm.gist.ac.kr";
  student_id = "20250001";
  phone_number = "01012345678";
  is_id_verified = true;
  is_phone_number_verified = true;
}

abbrev pub site : Client
site = record {
  uuid = "site";
  secret = "hash:client-secret";
  name = "Site";
  picture = none;
  urls = "https://site" ∷ [];
  delete_requested_at = none;
  id_token_allowed = true;
  scopes = "email" ∷ [];
  optional_scopes = "profile" ∷ [];
}

-- `alice` owns the client `site`, `bob` is a member of it, and `alice` has consented to it.
abbrev pub sample_db : SampleDb
sample_db = record {
  users = λ k. if k == "alice" then some alice else none;
  clients = λ k. if k == "site" then some site else none;
  relations = λ k.
      if k.client_uuid == "site"
      then if k.user_uuid == "alice"
        then some (record { user_uuid = "alice"; client_uuid = "site"; role = owner })
        else if k.user_uuid == "bob"
        then some (record { user_uuid = "bob"; client_uuid = "site"; role = member })
        else none
      else none;
  refresh_tokens = λ k. none;
  consents = λ k.
      if k.user_uuid == "alice"
      then if k.client_uuid == "site"
        then some (record {
          client_uuid = "site";
          user_uuid = "alice";
          scopes = "email" ∷ "profile" ∷ [];
        })
        else none
      else none;
  authenticators = λ k. none;
}

abbrev pub start : World SampleDb Entries
start = record { db = sample_db; cache = λ k. none; now = 0; drawn = 0; sent = [] }

-- The tables of the sample meet the laws.
pub refresh_token_laws :
    TableLaws sample_prisma.refresh_tokens (λ (r : RefreshToken). r.token) (λ k. k)
refresh_token_laws =
    sample_table_laws (λ a b. a == b) _ (λ k db. some k) (λ (db : SampleDb). db.refresh_tokens)
      (λ s db. record db { refresh_tokens = s }) (λ k. k) eq_iff (λ k db. refl) (λ s db. refl)

pub relation_laws : TableLaws sample_prisma.relations relation_key (λ k. k)
relation_laws =
    sample_table_laws same_pair _ (λ k db. some k) (λ (db : SampleDb). db.relations)
      (λ s db. record db { relations = s }) (λ k. k) same_pair_iff (λ k db. refl) (λ s db. refl)
