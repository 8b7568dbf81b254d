-- ===== src/Verify/Service.antt =====
-- src/verify/verify.service.ts
use idp_be.Prelude.{
  ◌&&◌, ◌+◌, Bool, List, [], ◌∷◌, ℕ, ◌*◌, String, ◌⋆◌, not, Option, none, some, ◌==◌,
}
use idp_be.Exec.{
  Exec, ok, Exception, bad_request, not_found, internal, cache_not_found, pure, throw, throw_if,
  catch, answer, require_text, ◌>>=◌, ◌>>◌,
}
use idp_be.Schema.{text_type}
use idp_be.Platform.{
  Platform, World, VerificationType, VerificationPayload, PhoneResult, StudentIdReply,
}
use idp_be.Redis
use idp_be.Random.{is_code, random_int}
use idp_be.Outbox.{send_email, send_message}
use idp_be.Verify.Digits.{six_digits}

abbrev pub email_prefix : String
email_prefix = "EmailVerificationCode"

abbrev pub phone_prefix : String
phone_prefix = "PhoneNumberVerificationCode"

-- 3 minutes, in seconds
abbrev pub verification_ttl : ℕ
verification_ttl = 3 * 60

-- The handler of both reads of a code: a missing one is the caller's error.
abbrev pub on_missing_code : String → Exception → Exception
on_missing_code message (cache_not_found _) = bad_request message
on_missing_code message _ = internal ""

-- `buffer.length`
abbrev size : List ℕ → ℕ
size [] = 0
size (_ ∷ bytes) = size bytes + 1

module _ {Db Cache Response : Type 0} (P : Platform Db Cache Response) where
  unfoldable pub send_email_code : String → Exec (World Db Cache) (Unit {0})
  unfolding random_int six_digits
  send_email_code email = do
    n ← random_int P 1000000
    send_email P email "인포팀 계정 인증 코드" (P.render_code (six_digits n))
    Redis.set P text_type email (six_digits n) email_prefix verification_ttl

  -- the prefix and the key that a hint stands for
  abbrev pub code_entry : VerificationType → (subject : String) → Option (String × String)
  code_entry VerificationType.email subject = some (email_prefix, P.lower_case subject)
  code_entry VerificationType.phone_number subject = some (phone_prefix, subject)
  code_entry VerificationType.student_id subject = none

  -- `Buffer.from(code).length === Buffer.from(cachedCode).length &&
  -- crypto.timingSafeEqual(Buffer.from(code), Buffer.from(cachedCode))`
  abbrev pub is_equal_code : (code cached_code : String) → Bool
  is_equal_code code cached_code =
      is_code (size (P.buffer code)) (size (P.buffer cached_code))
      && P.timing_safe_equal (P.buffer code) (P.buffer cached_code)

  -- Reads a code, compares it with the given one, and deletes it.
  unfoldable pub use_code : (prefix subject code : String) → Exec (World Db Cache) (Unit {0})
  use_code prefix subject code = do
    cached_code ←
        catch (Redis.get_or_throw P text_type subject prefix)
          (on_missing_code "invalid subject or code")
    throw_if (not (is_equal_code code cached_code)) (bad_request "invalid subject or code")
    Redis.del P subject prefix

  abbrev pub payload : (subject : String) → VerificationType → VerificationPayload
  payload subject hint = record { iss = P.config.jwt_issuer; sub = subject; hint = hint }

  unfoldable pub sign_verification :
      (subject : String) → VerificationType → Exec (World Db Cache) String
  sign_verification subject hint w = (ok (P.jwt.sign_verification (payload subject hint) w.now), w)

  unfoldable pub validate_entry :
      Option (String × String) → (code : String) → VerificationType → Exec (World Db Cache) String
  unfolding throw use_code sign_verification
  validate_entry none code hint = throw (bad_request "only email and phone number supported")
  validate_entry (some (prefix, subject)) code hint = do
    use_code prefix subject code
    sign_verification subject hint

  unfoldable pub validate_code :
      (subject code : String) → VerificationType → Exec (World Db Cache) String
  unfolding validate_entry
  validate_code subject code hint = validate_entry (code_entry hint subject) code hint

  unfoldable pub validate_jwt_token : String → Exec (World Db Cache) VerificationPayload
  validate_jwt_token token w =
      answer (λ _. bad_request "invalid jwt token") (P.jwt.verify token P.config.jwt_issuer w.now) w

  -- What `getStudentId` makes of the reply of the student-id service.
  abbrev pub student_id_of : StudentIdReply → Exec (World Db Cache) String
  student_id_of StudentIdReply.timed_out = throw (internal "timeout error")
  student_id_of StudentIdReply.failed = throw (internal "")
  student_id_of StudentIdReply.bad_status = throw (internal "GIST server error")
  student_id_of (StudentIdReply.reply result student_no) = do
    throw_if (result == "false") (not_found "Student ID is not found")
    require_text student_no (not_found "Student ID is not found")

  unfoldable pub get_student_id : (name birth_date : String) → Exec (World Db Cache) String
  unfolding throw
  get_student_id name birth_date w = student_id_of (P.fetch_student_id name birth_date w.now) w

  unfoldable pub verify_student_id :
      (name birth_date : String) → Exec (World Db Cache) (String × String)
  unfolding pure get_student_id sign_verification
  verify_student_id name birth_date = do
    student_id ← get_student_id name birth_date
    jwt_token ← sign_verification student_id VerificationType.student_id
    pure (student_id, jwt_token)

  -- The country and the national form of a phone number.
  abbrev pub parsed_phone : PhoneResult → Exec (World Db Cache) (String × String)
  parsed_phone (PhoneResult.parsed country national) = pure (country, national)
  parsed_phone PhoneResult.parse_error = throw (bad_request "Failed to parse phone number")
  parsed_phone PhoneResult.other_error =
      throw (internal "Unexpected error while parsing phone number")

  unfoldable pub send_phone_code : String → Exec (World Db Cache) (Unit {0})
  unfolding throw pure random_int six_digits
  send_phone_code phone_number = do
    tel ← parsed_phone (P.parse_phone phone_number)
    throw_if (not (tel.0 == "KR")) (bad_request "Not a South Korean phone number.")
    n ← random_int P 1000000
    send_message P tel.1 ("인포팀 계정 인증코드: [" ⋆ (six_digits n ⋆ "] 공유하지 마십시오."))
    Redis.set P text_type phone_number (six_digits n) phone_prefix verification_ttl
