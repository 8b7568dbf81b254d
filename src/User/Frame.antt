-- ===== src/User/Frame.antt =====
-- The operations of src/user that touch no cache.
use idp_be.Prelude.{ℕ, String, Option}
use idp_be.Exec.Keeps.{Keeps}
use idp_be.Schema.{User}
use idp_be.Platform.{Platform, World, VerificationType, PhoneResult, StudentIdReply}
use idp_be.Database.Keeps.{CacheOnly, Keeps-answer, steps_rules}
use idp_be.Outbox.Keeps.{outbox_rules}
use idp_be.Verify.Service as VerifyService
use idp_be.Verify.Service.{parsed_phone, student_id_of}
use idp_be.User.Repository
use idp_be.User.Service
use idp_be.User.Service.{Registration}

module _ {Db Cache Response : Type 0} (P : Platform Db Cache Response) {Q : World Db Cache → Type 0}
    (c : CacheOnly Q) where
  pub Keeps-find_user_consents :
      (uuid : String) → Keeps Q (Service.find_user_consent_by_uuid P uuid)
  unfolding Service.find_user_consent_by_uuid Repository.find_user_consent_by_uuid
  Keeps-find_user_consents uuid = search steps_rules

  pub Keeps-check_email : (email : String) → Keeps Q (Service.check_email P email)
  unfolding Service.check_email Repository.check_email
  Keeps-check_email email = search steps_rules

  pub Keeps-parsed_phone : (r : PhoneResult) → Keeps Q (parsed_phone P r)
  Keeps-parsed_phone (PhoneResult.parsed country national) = search steps_rules
  Keeps-parsed_phone PhoneResult.parse_error = search steps_rules
  Keeps-parsed_phone PhoneResult.other_error = search steps_rules

  Keeps-validate_jwt_token : (token : String) → Keeps Q (VerifyService.validate_jwt_token P token)
  unfolding VerifyService.validate_jwt_token
  Keeps-validate_jwt_token token = record {
    after =
        λ w h. (Keeps-answer {Q = Q} _ (P.jwt.verify token P.config.jwt_issuer w.now)).after w h;
  }

  Keeps-check_verification :
      (token : String) (hint : VerificationType) (subject message : String)
      → Keeps Q (Service.check_verification P token hint subject message)
  unfolding Service.check_verification
  Keeps-check_verification token hint subject message =
      search (steps_rules, Keeps-validate_jwt_token)

  Keeps-require_verification :
      (given : Option String) (missing : String) (hint : VerificationType)
      (subject message : String)
      → Keeps Q (Service.require_verification P given missing hint subject message)
  unfolding Service.require_verification
  Keeps-require_verification given missing hint subject message =
      search (steps_rules, Keeps-check_verification)

  pub Keeps-register : (r : Registration) → Keeps Q (Service.register P r)
  unfolding Service.register Repository.create_user
  Keeps-register r =
      search (steps_rules, Keeps-check_verification, Keeps-require_verification, Keeps-parsed_phone)
        depth 12

  Keeps-student_id_of : (r : StudentIdReply) → Keeps Q (student_id_of P r)
  Keeps-student_id_of StudentIdReply.timed_out = search steps_rules
  Keeps-student_id_of StudentIdReply.failed = search steps_rules
  Keeps-student_id_of StudentIdReply.bad_status = search steps_rules
  Keeps-student_id_of (StudentIdReply.reply result student_no) = search steps_rules

  pub Keeps-get_student_id :
      (name birth_date : String) → Keeps Q (VerifyService.get_student_id P name birth_date)
  unfolding VerifyService.get_student_id
  Keeps-get_student_id name birth_date = record {
    after = λ w h. (Keeps-student_id_of (P.fetch_student_id name birth_date w.now)).after w h;
  }

  pub Keeps-verify_student_id :
      (uuid name birth_date : String) → Keeps Q (Service.verify_student_id P uuid name birth_date)
  unfolding Service.verify_student_id Repository.update_student_id Repository.update_user
  Keeps-verify_student_id uuid name birth_date = search (steps_rules, Keeps-get_student_id)

  pub Keeps-issue_password : (email : String) → Keeps Q (Service.issue_password P email)
  unfolding Service.issue_password Repository.find_user_by_email Repository.update_user_password
      Repository.update_user
  Keeps-issue_password email = search (steps_rules, outbox_rules) depth 12

  pub Keeps-change_password :
      (password old_password : String) (user : User)
      → Keeps Q (Service.change_password P password old_password user)
  unfolding Service.change_password Repository.update_user_password Repository.update_user
  Keeps-change_password password old_password user = search steps_rules depth 9

  pub Keeps-update_user_picture :
      (length : ℕ) (user_uuid : String) → Keeps Q (Service.update_user_picture P length user_uuid)
  unfolding Service.update_user_picture Repository.update_user_picture Repository.update_user
  Keeps-update_user_picture length user_uuid = search (steps_rules, outbox_rules) depth 9

  pub Keeps-delete_user :
      (user_uuid password : String) → Keeps Q (Service.delete_user P user_uuid password)
  unfolding Service.delete_user Repository.find_user_by_uuid Repository.delete_user
  Keeps-delete_user user_uuid password = search steps_rules depth 9

  pub Keeps-delete_user_picture :
      (user_uuid : String) → Keeps Q (Service.delete_user_picture P user_uuid)
  unfolding Service.delete_user_picture Repository.find_user_by_uuid Repository.delete_user_picture
  Keeps-delete_user_picture user_uuid = search (steps_rules, outbox_rules) depth 9

  pub Keeps-get_passkey_list : (user_uuid : String) → Keeps Q (Service.get_passkey_list P user_uuid)
  unfolding Service.get_passkey_list Repository.get_passkey_list
  Keeps-get_passkey_list user_uuid = search steps_rules

  pub Keeps-update_passkey :
      (id name user_uuid : String) → Keeps Q (Service.update_passkey P id name user_uuid)
  unfolding Service.update_passkey Repository.get_authenticator Repository.update_passkey
  Keeps-update_passkey id name user_uuid = search steps_rules depth 9

  pub Keeps-delete_passkey :
      (id user_uuid : String) → Keeps Q (Service.delete_passkey P id user_uuid)
  unfolding Service.delete_passkey Repository.get_authenticator Repository.delete_passkey
  Keeps-delete_passkey id user_uuid = search steps_rules depth 9
