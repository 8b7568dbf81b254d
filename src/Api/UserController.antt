-- ===== src/Api/UserController.antt =====
-- src/user/user.controller.ts and src/verify/verify.controller.ts. The limit on how often a code is
-- sent to a phone number is kept by the throttler of NestJS, outside of the service.
use idp_be.Prelude.{ℕ, String, Bool, Option, List, map}
use idp_be.Exec.{Exec, pure, ◌>>=◌}
use idp_be.Schema.{Authenticator}
use idp_be.Platform.{Platform, World, VerificationType}
use idp_be.User.Service
use idp_be.User.Service.{Registration}
use idp_be.Verify.Service as VerifyService
use idp_be.Api.Http.{Credentials, user_guard}
use idp_be.Api.Views.{UserRes, UserConsentRes, user_res, user_consent_res}

module _ {Db Cache Response : Type 0} (P : Platform Db Cache Response) where
  unfoldable pub get_user : Credentials → Exec (World Db Cache) UserRes
  unfolding pure
  get_user creds = do user ← user_guard P creds; pure (user_res user)

  unfoldable pub get_user_consent : Credentials → Exec (World Db Cache) (List UserConsentRes)
  unfolding pure
  get_user_consent creds = do
    user ← user_guard P creds
    found ← Service.find_user_consent_by_uuid P user.uuid
    pure (map user_consent_res found)

  unfoldable pub check_email : String → Exec (World Db Cache) Bool
  check_email email = Service.check_email P email

  unfoldable pub register : Registration → Exec (World Db Cache) (Unit {0})
  register body = Service.register P body

  -- `verifyStudentId` and `verifyStudentIdLegacy`
  unfoldable pub verify_student_id :
      Credentials → (name birth_date : String) → Exec (World Db Cache) (Unit {0})
  verify_student_id creds name birth_date = do
    user ← user_guard P creds
    Service.verify_student_id P user.uuid name birth_date

  unfoldable pub verify_phone_number :
      Credentials → (phone_number code : String) → Exec (World Db Cache) (Unit {0})
  verify_phone_number creds phone_number code = do
    user ← user_guard P creds
    Service.verify_phone_number P user.uuid phone_number code

  unfoldable pub issue_password : String → Exec (World Db Cache) (Unit {0})
  issue_password email = Service.issue_password P email

  unfoldable pub change_password :
      Credentials → (password old_password : String) → Exec (World Db Cache) (Unit {0})
  change_password creds password old_password = do
    user ← user_guard P creds
    Service.change_password P password old_password user

  unfoldable pub update_picture : Credentials → (length : ℕ) → Exec (World Db Cache) String
  update_picture creds length = do
    user ← user_guard P creds
    Service.update_user_picture P length user.uuid

  unfoldable pub delete_user : Credentials → (password : String) → Exec (World Db Cache) (Unit {0})
  delete_user creds password = do
    user ← user_guard P creds
    Service.delete_user P user.uuid password

  unfoldable pub delete_picture : Credentials → Exec (World Db Cache) (Unit {0})
  delete_picture creds = do user ← user_guard P creds; Service.delete_user_picture P user.uuid

  unfoldable pub get_passkey_list : Credentials → Exec (World Db Cache) (List Authenticator)
  get_passkey_list creds = do user ← user_guard P creds; Service.get_passkey_list P user.uuid

  unfoldable pub register_options : Credentials → Exec (World Db Cache) String
  register_options creds = do user ← user_guard P creds; Service.register_options P user.email

  unfoldable pub verify_registration :
      Credentials → (name : String) → Response → (icon : Option String) → Exec (World Db Cache) Bool
  verify_registration creds name response icon = do
    user ← user_guard P creds
    Service.verify_registration P user.email name response icon

  unfoldable pub update_passkey :
      Credentials → (id name : String) → Exec (World Db Cache) (Unit {0})
  update_passkey creds id name = do
    user ← user_guard P creds
    Service.update_passkey P id name user.uuid

  unfoldable pub delete_passkey : Credentials → (id : String) → Exec (World Db Cache) (Unit {0})
  delete_passkey creds id = do user ← user_guard P creds; Service.delete_passkey P id user.uuid

  -- `VerifyController.verify`
  unfoldable pub verify : (subject code : String) → VerificationType → Exec (World Db Cache) String
  verify subject code hint = VerifyService.validate_code P subject code hint

  unfoldable pub send_email_certification_code : String → Exec (World Db Cache) (Unit {0})
  send_email_certification_code email = VerifyService.send_email_code P email

  -- `VerifyController.verifyStudentId` and `verifyStudentIdLegacy`
  unfoldable pub verify_new_student_id :
      (name birth_date : String) → Exec (World Db Cache) (String × String)
  verify_new_student_id name birth_date = VerifyService.verify_student_id P name birth_date

  unfoldable pub send_phone_code : String → Exec (World Db Cache) (Unit {0})
  send_phone_code phone_number = VerifyService.send_phone_code P phone_number
