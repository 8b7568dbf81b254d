-- ===== src/User/Service.antt =====
-- src/user/user.service.ts
use Prim.Native.String.{slice, len}
use idp_be.Prelude.{
  ℕ, ◌+◌, ◌*◌, ◌-◌, String, ◌⋆◌, Bool, true, false, not, Option, List, ◌==◌, is_blank, leb, ◌&&◌,
}
use idp_be.Exec.{
  Exec, ok, bad_request, forbidden, unauthorized, library, pure, throw_if, catch, answer, or_throw,
  require_text, when, ◌>>=◌, ◌>>◌,
}
use idp_be.Schema.{User, Authenticator, text_type}
use idp_be.Platform.{Platform, World, UserConsent, VerificationType}
use idp_be.Redis
use idp_be.Random.{random_bytes, hash_password}
use idp_be.Outbox.{picture_url, send_email, create_presigned_url, delete_object}
use idp_be.Verify.Service as VerifyService
use idp_be.Verify.Service.{is_equal_code, phone_prefix, on_missing_code, parsed_phone}
use idp_be.User.Repository
use idp_be.User.Repository.{NewUser}

abbrev pub passkey_register_prefix : String
passkey_register_prefix = "passkeyRegister"

abbrev pub register_challenge_ttl : ℕ
register_challenge_ttl = 10 * 60

-- `email.endsWith('@gm.gist.ac.kr')`
unfoldable pub ends_with : (suffix s : String) → Bool
ends_with suffix s = leb (len suffix) (len s) && slice s (len s - len suffix) (len s) == suffix

abbrev pub is_student_email : String → Bool
is_student_email email = ends_with "@gm.gist.ac.kr" email

abbrev pub same_hint : VerificationType → VerificationType → Bool
same_hint VerificationType.email VerificationType.email = true
same_hint VerificationType.phone_number VerificationType.phone_number = true
same_hint VerificationType.student_id VerificationType.student_id = true
same_hint _ _ = false

-- src/user/dto/req.dto.ts, `RegisterDto`
pub record Registration : Type 0 where
  pub email : String
  pub password : String
  pub name : String
  pub student_id : String
  pub phone_number : String
  pub email_jwt : String
  pub student_id_jwt : Option String
  pub phone_number_jwt : Option String

module _ {Db Cache Response : Type 0} (P : Platform Db Cache Response) where
  unfoldable pub find_user_by_uuid : String → Exec (World Db Cache) User
  unfolding pure picture_url
  find_user_by_uuid uuid = do
    user ← Repository.find_user_by_uuid P uuid
    pure (record user { picture = picture_url P user.picture })

  unfoldable pub check_email : String → Exec (World Db Cache) Bool
  check_email email = Repository.check_email P email

  unfoldable pub find_user_consent_by_uuid : String → Exec (World Db Cache) (List UserConsent)
  find_user_consent_by_uuid uuid = Repository.find_user_consent_by_uuid P uuid

  -- The check that `register` makes of each token: valid, of the kind, and about the value.
  unfoldable pub check_verification :
      (token : String)
      → VerificationType
      → (subject message : String) → Exec (World Db Cache) (Unit {0})
  check_verification token hint subject message = do
    payload ← VerifyService.validate_jwt_token P token
    throw_if (not (same_hint payload.hint hint)) (forbidden message)
    throw_if (not (payload.sub == subject)) (forbidden "verification jwt token not valid")

  -- The same, for a token that may be missing.
  unfoldable pub require_verification :
      Option String
      → (missing : String) → VerificationType
      → (subject message : String) → Exec (World Db Cache) (Unit {0})
  unfolding check_verification
  require_verification given missing hint subject message = do
    token ← require_text given (forbidden missing)
    check_verification token hint subject message

  unfoldable pub register : Registration → Exec (World Db Cache) (Unit {0})
  unfolding check_verification require_verification
  register r = do
    check_verification r.email_jwt VerificationType.email r.email "verification hint is not email"
    when (is_student_email r.email) (
        require_verification r.student_id_jwt "student id verification jwt is required"
          VerificationType.student_id r.student_id "verification hint is not studentId")
    tel ← parsed_phone P (P.parse_phone r.phone_number)
    let is_korean = tel.0 == "KR"
    when is_korean (
        require_verification r.phone_number_jwt
          "phone number verification jwt is required for Korean phone numbers"
          VerificationType.phone_number r.phone_number "verification hint is not phoneNumber")
    hashed ← hash_password P r.password
    Repository.create_user P (record {
      email = r.email;
      password = hashed;
      name = r.name;
      student_id = r.student_id;
      phone_number = r.phone_number;
      is_phone_number_verified = is_korean;
    })

  unfoldable pub verify_student_id :
      (uuid name birth_date : String) → Exec (World Db Cache) (Unit {0})
  verify_student_id uuid name birth_date = do
    student_id ← VerifyService.get_student_id P name birth_date
    Repository.update_student_id P uuid name student_id

  unfoldable pub verify_phone_number :
      (uuid phone_number code : String) → Exec (World Db Cache) (Unit {0})
  verify_phone_number uuid phone_number code = do
    cached_code ←
        catch (Redis.get_or_throw P text_type phone_number phone_prefix)
          (on_missing_code "invalid phone number or code")
    throw_if (not (is_equal_code P code cached_code)) (bad_request "invalid phone number or code")
    Repository.update_phone_number P uuid phone_number
    Redis.del P phone_number phone_prefix

  unfoldable pub issue_password : String → Exec (World Db Cache) (Unit {0})
  unfolding random_bytes
  issue_password email = do
    user ← Repository.find_user_by_email P email
    bytes ← random_bytes P 18
    let new_password = P.crypto.base64 bytes
    send_email P email "인포팀 계정 임시 비밀번호" (P.render_temporary_password new_password)
    hashed ← hash_password P new_password
    Repository.update_user_password P user.uuid hashed

  unfoldable pub change_password :
      (password old_password : String) → User → Exec (World Db Cache) (Unit {0})
  change_password password old_password user = do
    throw_if (not (P.crypto.bcrypt_compare old_password user.password))
        (forbidden "old password not valid")
    hashed ← hash_password P password
    Repository.update_user_password P user.uuid hashed

  unfoldable pub update_user_picture : ℕ → (user_uuid : String) → Exec (World Db Cache) String
  unfolding pure random_bytes
  update_user_picture length user_uuid = do
    bytes ← random_bytes P 16
    let key = "user/" ⋆ (user_uuid ⋆ ("/profile_" ⋆ (P.crypto.base64url bytes ⋆ ".webp")))
    url ← create_presigned_url P key length
    Repository.update_user_picture P key user_uuid
    pure url

  unfoldable pub delete_user : (user_uuid password : String) → Exec (World Db Cache) (Unit {0})
  delete_user user_uuid password = do
    user ← Repository.find_user_by_uuid P user_uuid
    throw_if (not (P.crypto.bcrypt_compare password user.password))
        (forbidden "password is not valid")
    Repository.delete_user P user_uuid

  unfoldable pub delete_user_picture : String → Exec (World Db Cache) (Unit {0})
  unfolding pure
  delete_user_picture user_uuid = do
    user ← Repository.find_user_by_uuid P user_uuid
    when (not (is_blank user.picture)) (
        Repository.delete_user_picture P user_uuid
        >> delete_object P ("user/" ⋆ (user_uuid ⋆ "/profile.webp")))

  unfoldable pub get_passkey_list : String → Exec (World Db Cache) (List Authenticator)
  get_passkey_list user_uuid = Repository.get_passkey_list P user_uuid

  -- The library passes the other options through; the answer is the challenge.
  unfoldable pub register_options : String → Exec (World Db Cache) String
  unfolding pure
  register_options email = do
    user ← Repository.find_user_by_email P email
    ids ← Repository.authenticator_ids P user.uuid
    challenge ← (λ w. (
      ok (
          P.web_authn.registration_challenge P.config.passkey_rp_id user.uuid user.name ids
            w.drawn),
      record w { drawn = w.drawn + 1 },
    ))
    Redis.set P text_type user.uuid challenge passkey_register_prefix register_challenge_ttl
    pure challenge

  -- The library answers with the credential where the response is verified.
  unfoldable pub verified_credential :
      Response → (challenge : String) → Exec (World Db Cache) (String × List ℕ × ℕ)
  verified_credential response challenge = do
    verified ← answer library (
        P.web_authn.verify_registration response challenge P.config.passkey_rp_origin
          P.config.passkey_rp_id)
    or_throw verified (unauthorized "")

  unfoldable pub verify_registration :
      (email name : String) → Response → (icon : Option String) → Exec (World Db Cache) Bool
  unfolding pure verified_credential
  verify_registration email name response icon = do
    user ← Repository.find_user_by_email P email
    expected_challenge ← Redis.get_or_throw P text_type user.uuid passkey_register_prefix
    credential ← verified_credential response expected_challenge
    Redis.del P user.uuid passkey_register_prefix
    Repository.save_authenticator P credential.0 name icon credential.1 credential.2 user.uuid
    pure true

  unfoldable pub update_passkey : (id name user_uuid : String) → Exec (World Db Cache) (Unit {0})
  update_passkey id name user_uuid = do
    auth ← Repository.get_authenticator P id
    throw_if (not (auth.user_uuid == user_uuid)) (forbidden "")
    Repository.update_passkey P id name

  unfoldable pub delete_passkey : (id user_uuid : String) → Exec (World Db Cache) (Unit {0})
  delete_passkey id user_uuid = do
    auth ← Repository.get_authenticator P id
    throw_if (not (auth.user_uuid == user_uuid)) (forbidden "")
    Repository.delete_passkey P id
