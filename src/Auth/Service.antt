-- ===== src/Auth/Service.antt =====
-- src/auth/auth.service.ts
use idp_be.Prelude.{ℕ, ◌+◌, ◌*◌, String, not, ◌==◌}
use idp_be.Exec.{
  Exec, ok, unauthorized, library, pure, throw_if, catch, answer, or_throw, ◌>>=◌, ◌>>◌,
}
use idp_be.Schema.{User, Authenticator, user_ref_type, text_type}
use idp_be.Platform.{Platform, World}
use idp_be.Redis
use idp_be.Random.{random_bytes, random_uuid, strip_symbols}
use idp_be.Outbox.{picture_url}
use idp_be.Auth.Repository

abbrev pub refresh_token_prefix : String
refresh_token_prefix = "refreshToken"

abbrev pub passkey_prefix : String
passkey_prefix = "passkey"

-- 10 minutes, in seconds
abbrev pub challenge_ttl : ℕ
challenge_ttl = 10 * 60

-- src/auth/types/loginResult.type.ts
pub record LoginResult : Type 0 where
  pub access_token : String
  pub refresh_token : String
  pub access_token_expire_time : ℕ
  pub refresh_token_expire_time : ℕ

module _ {Db Cache Response : Type 0} (P : Platform Db Cache Response) where
  -- What the constructor computes. `ms` gives milliseconds.
  abbrev pub access_token_expire_time : ℕ
  access_token_expire_time = P.ms P.config.jwt_expire

  abbrev pub refresh_token_expire_time : ℕ
  refresh_token_expire_time = P.ms P.config.refresh_token_expire

  unfoldable pub generate_opaque_token : Exec (World Db Cache) String
  unfolding pure random_bytes strip_symbols
  generate_opaque_token = do bytes ← random_bytes P 32; pure (strip_symbols (P.crypto.base64 bytes))

  -- the answer of a login and of a refresh
  abbrev pub login_result : (uuid refresh_token : String) → (now : ℕ) → LoginResult
  login_result uuid refresh_token now = record {
    access_token = P.jwt.sign_subject uuid now;
    refresh_token = refresh_token;
    access_token_expire_time = access_token_expire_time;
    refresh_token_expire_time = refresh_token_expire_time;
  }

  unfoldable pub issue_tokens : String → Exec (World Db Cache) LoginResult
  unfolding generate_opaque_token
  issue_tokens uuid = do
    refresh_token ← generate_opaque_token
    Redis.set P user_ref_type refresh_token uuid refresh_token_prefix refresh_token_expire_time
    (λ w. (ok (login_result uuid refresh_token w.now), w))

  unfoldable pub login : (email password : String) → Exec (World Db Cache) LoginResult
  unfolding issue_tokens
  login email password = do
    user ← Repository.find_user_by_email P email
    throw_if (not (P.crypto.bcrypt_compare password user.password)) (unauthorized "")
    issue_tokens user.uuid

  unfoldable pub logout : String → Exec (World Db Cache) (Unit {0})
  logout refresh_token = Redis.del P refresh_token refresh_token_prefix

  -- `void promise`: nothing waits for the command, which is sent before the answer and taken as done
  -- by then, since Redis runs the commands of a connection in order; its error is not seen.
  unfoldable pub detached : Exec (World Db Cache) (Unit {0}) → Exec (World Db Cache) (Unit {0})
  detached m w = (ok tt, (m w).1)

  unfoldable pub refresh : String → Exec (World Db Cache) LoginResult
  unfolding generate_opaque_token detached
  refresh refresh_token = do
    throw_if (refresh_token == "") (unauthorized "")
    cached_user ←
        catch (Redis.get_or_throw P user_ref_type refresh_token refresh_token_prefix)
          (λ _. unauthorized "")
    user ← Repository.find_user_by_uuid P cached_user
    Redis.del P refresh_token refresh_token_prefix
    new_refresh_token ← generate_opaque_token
    detached (
        Redis.set P user_ref_type new_refresh_token cached_user refresh_token_prefix
          refresh_token_expire_time)
    (λ w. (ok (login_result user.uuid new_refresh_token w.now), w))

  unfoldable pub find_user_by_uuid : String → Exec (World Db Cache) User
  unfolding pure picture_url
  find_user_by_uuid uuid = do
    user ← Repository.find_user_by_uuid P uuid
    pure (record user { picture = picture_url P user.picture })

  -- The other options that the library generates are passed through; the answer is the key and
  -- the challenge.
  unfoldable pub authenticate_options : Exec (World Db Cache) (String × String)
  unfolding pure random_uuid
  authenticate_options = do
    challenge ← (λ w. (
      ok (P.web_authn.authentication_challenge P.config.passkey_rp_id w.drawn),
      record w { drawn = w.drawn + 1 },
    ))
    key ← random_uuid P
    Redis.set P text_type key challenge passkey_prefix challenge_ttl
    pure (key, challenge)

  -- The library answers with the new counter where the response is verified.
  unfoldable pub verify_response :
      Response → (challenge : String) → Authenticator → Exec (World Db Cache) ℕ
  verify_response response challenge authenticator = do
    verified ← answer library (
        P.web_authn.verify_authentication response challenge P.config.passkey_rp_origin
          P.config.passkey_rp_id authenticator)
    or_throw verified (unauthorized "")

  unfoldable pub verify_authentication :
      (key : String) → Response → Exec (World Db Cache) LoginResult
  unfolding issue_tokens verify_response
  verify_authentication key response = do
    expected_challenge ← Redis.get_or_throw P text_type key passkey_prefix
    throw_if (expected_challenge == "") (unauthorized "")
    Redis.del P key passkey_prefix
    authenticator ← Repository.find_authenticator P (P.web_authn.response_id response)
    new_counter ← verify_response response expected_challenge authenticator
    Repository.update_passkey_counter P authenticator.id new_counter
    issue_tokens authenticator.user_uuid
