-- ===== src/Requests/Traces.antt =====
-- Every sequence of requests leaves a dead key kept.
use idp_be.Schema.{CachedValue}
use idp_be.Platform.{Platform, World}
use idp_be.Platform.Laws.{RedisLaws}
use idp_be.Prelude.{ℕ, String, arith}
use idp_be.Database.Keeps.{CacheOnly}
use idp_be.Client.Frame
use idp_be.User.Frame as UserFrame
use idp_be.Api.OauthController
use idp_be.Api.AuthController
use idp_be.Api.ClientController
use idp_be.Api.UserController
use idp_be.Requests.Frame.{IsTokenKey, IsOnly, IsOnly-CacheOnly}
use idp_be.Requests.Accounts
use idp_be.Requests.Grants
use idp_be.Requests.Steps.{Request, serve, Leads, stays, then_request, then_time}
use idp_be.Requests.Kept

module _ {Db Cache Response : Type 0} (P : Platform Db Cache Response) (L : RedisLaws P.redis)
    (allowed : ℕ → CachedValue → Type 0) (full : String) (key : IsTokenKey full) where
  c : CacheOnly (IsOnly P allowed full)
  c = IsOnly-CacheOnly P allowed full

  -- A request leaves the key with only what is allowed in it, however its handler ends.
  pub serve-IsOnly :
      (r : Request Response) (w : World Db Cache)
      → IsOnly P allowed full w
      → IsOnly P allowed full (serve P r w)
  unfolding OauthController.consent OauthController.authorize OauthController.token
      OauthController.revoke AuthController.login AuthController.logout AuthController.refresh
      AuthController.authenticate_options AuthController.verify_authentication
      ClientController.get_client_list ClientController.get_client
      ClientController.get_client_public ClientController.register_client
      ClientController.get_members ClientController.add_member ClientController.remove_member
      ClientController.set_role ClientController.reset_client_secret ClientController.update_client
      ClientController.update_client_picture ClientController.delete_client
      ClientController.delete_client_picture UserController.get_user UserController.get_user_consent
      UserController.check_email UserController.register UserController.verify_student_id
      UserController.verify_phone_number UserController.issue_password
      UserController.change_password UserController.update_picture UserController.delete_user
      UserController.delete_picture UserController.get_passkey_list UserController.register_options
      UserController.verify_registration UserController.update_passkey UserController.delete_passkey
      UserController.verify UserController.send_email_certification_code
      UserController.verify_new_student_id UserController.send_phone_code
  serve-IsOnly (Request.consent k scope id) w =
      (Kept.as_user P L allowed full key _ _
          λ u. Grants.Keeps-consent P L allowed full scope id u).after
        w
  serve-IsOnly (Request.authorize k query) w =
      (Kept.as_user P L allowed full key _ _ λ u.
          Kept.answers P L allowed full key _ _
            (Grants.Keeps-authorize P L allowed full query u)).after
        w
  serve-IsOnly (Request.token header body) w =
      (Kept.Keeps-grant_with P L allowed full key _ body).after w
  serve-IsOnly (Request.revoke t hint) w = (Grants.Keeps-revoke P L allowed full t hint).after w
  serve-IsOnly (Request.userinfo header sub) w =
      (Kept.Keeps-userinfo P L allowed full key header sub).after w
  serve-IsOnly (Request.login email password) w =
      (Kept.Keeps-with_cookies P L allowed full key _
          (Accounts.Keeps-login P L allowed full key email password)).after
        w
  serve-IsOnly (Request.logout k) w =
      (Kept.answers P L allowed full key _ _ (Accounts.Keeps-logout P L allowed full key _)).after w
  serve-IsOnly (Request.refresh k) w =
      (Kept.Keeps-with_cookies P L allowed full key _
          (Accounts.Keeps-refresh P L allowed full key _)).after
        w
  serve-IsOnly Request.authenticate_options w =
      (Accounts.Keeps-authenticate_options P L allowed full key).after w
  serve-IsOnly (Request.verify_authentication k r) w =
      (Kept.Keeps-with_cookies P L allowed full key _
          (Accounts.Keeps-verify_authentication P L allowed full key k r)).after
        w
  serve-IsOnly (Request.get_client_list k) w =
      (Kept.as_user P L allowed full key _ _
          λ u. Kept.answers P L allowed full key _ _ (Frame.Keeps-get_client_list P c u)).after
        w
  serve-IsOnly (Request.get_client k uuid) w =
      (Kept.as_user P L allowed full key _ _
          λ u. Kept.answers P L allowed full key _ _ (Frame.Keeps-get_client P c uuid u)).after
        w
  serve-IsOnly (Request.get_client_public k uuid) w =
      (Kept.as_user P L allowed full key _ _ λ u.
          Kept.answers P L allowed full key _ _ (Frame.Keeps-get_client_by_uuid P c uuid)).after
        w
  serve-IsOnly (Request.register_client k name urls) w =
      (Kept.as_user P L allowed full key _ _ λ u.
          Kept.answers P L allowed full key _ _ (Frame.Keeps-register_client P c name urls u)).after
        w
  serve-IsOnly (Request.get_members k uuid) w =
      (Kept.as_member P L allowed full key _ _ _ _ λ u. Frame.Keeps-get_members P c uuid).after w
  serve-IsOnly (Request.add_member k uuid email) w =
      (Kept.as_member P L allowed full key _ _ _ _ λ u. Frame.Keeps-add_member P c uuid email).after
        w
  serve-IsOnly (Request.remove_member k uuid user) w =
      (Kept.as_member P L allowed full key _ _ _ _
          λ u. Frame.Keeps-remove_member P c uuid user).after
        w
  serve-IsOnly (Request.set_role k uuid user role) w =
      (Kept.as_member P L allowed full key _ _ _ _
          λ u. Frame.Keeps-set_role P c u.uuid uuid user role).after
        w
  serve-IsOnly (Request.reset_client_secret k uuid) w =
      (Kept.as_member P L allowed full key _ _ _ _ λ u.
          Kept.answers P L allowed full key _ _ (Frame.Keeps-reset_client_secret P c uuid u)).after
        w
  serve-IsOnly (Request.update_client k uuid body) w =
      (Kept.as_member P L allowed full key _ _ _ _ λ u.
          Kept.answers P L allowed full key _ _ (Frame.Keeps-update_client P c uuid body u)).after
        w
  serve-IsOnly (Request.update_client_picture k uuid n) w =
      (Kept.as_member P L allowed full key _ _ _ _
          λ u. Frame.Keeps-update_client_picture P c n uuid u.uuid).after
        w
  serve-IsOnly (Request.delete_client k uuid) w =
      (Kept.as_member P L allowed full key _ _ _ _
          λ u. Frame.Keeps-delete_client_request P c uuid u).after
        w
  serve-IsOnly (Request.delete_client_picture k uuid) w =
      (Kept.as_member P L allowed full key _ _ _ _
          λ u. Frame.Keeps-delete_client_picture P c uuid u.uuid).after
        w
  serve-IsOnly (Request.get_user k) w =
      (Kept.answers P L allowed full key _ _ (Kept.Keeps-user_guard P L allowed full key k)).after w
  serve-IsOnly (Request.get_user_consent k) w =
      (Kept.as_user P L allowed full key _ _ λ u.
          Kept.answers P L allowed full key _ _
            (UserFrame.Keeps-find_user_consents P c u.uuid)).after
        w
  serve-IsOnly (Request.check_email email) w = (UserFrame.Keeps-check_email P c email).after w
  serve-IsOnly (Request.register body) w = (UserFrame.Keeps-register P c body).after w
  serve-IsOnly (Request.verify_student_id k n b) w =
      (Kept.as_user P L allowed full key _ _
          λ u. UserFrame.Keeps-verify_student_id P c u.uuid n b).after
        w
  serve-IsOnly (Request.verify_phone_number k n code) w =
      (Kept.as_user P L allowed full key _ _
          λ u. Accounts.Keeps-verify_phone_number P L allowed full key u.uuid n code).after
        w
  serve-IsOnly (Request.issue_password email) w = (UserFrame.Keeps-issue_password P c email).after w
  serve-IsOnly (Request.change_password k new old) w =
      (Kept.as_user P L allowed full key _ _
          λ u. UserFrame.Keeps-change_password P c new old u).after
        w
  serve-IsOnly (Request.update_picture k n) w =
      (Kept.as_user P L allowed full key _ _
          λ u. UserFrame.Keeps-update_user_picture P c n u.uuid).after
        w
  serve-IsOnly (Request.delete_user k password) w =
      (Kept.as_user P L allowed full key _ _
          λ u. UserFrame.Keeps-delete_user P c u.uuid password).after
        w
  serve-IsOnly (Request.delete_picture k) w =
      (Kept.as_user P L allowed full key _ _
          λ u. UserFrame.Keeps-delete_user_picture P c u.uuid).after
        w
  serve-IsOnly (Request.get_passkey_list k) w =
      (Kept.as_user P L allowed full key _ _ λ u. UserFrame.Keeps-get_passkey_list P c u.uuid).after
        w
  serve-IsOnly (Request.register_options k) w =
      (Kept.as_user P L allowed full key _ _
          λ u. Accounts.Keeps-register_options P L allowed full key u.email).after
        w
  serve-IsOnly (Request.verify_registration k n r icon) w =
      (Kept.as_user P L allowed full key _ _
          λ u. Accounts.Keeps-verify_registration P L allowed full key u.email n r icon).after
        w
  serve-IsOnly (Request.update_passkey k id name) w =
      (Kept.as_user P L allowed full key _ _
          λ u. UserFrame.Keeps-update_passkey P c id name u.uuid).after
        w
  serve-IsOnly (Request.delete_passkey k id) w =
      (Kept.as_user P L allowed full key _ _
          λ u. UserFrame.Keeps-delete_passkey P c id u.uuid).after
        w
  serve-IsOnly (Request.verify subject code hint) w =
      (Accounts.Keeps-validate_code P L allowed full key subject code hint).after w
  serve-IsOnly (Request.send_email_certification_code email) w =
      (Accounts.Keeps-send_email_code P L allowed full key email).after w
  serve-IsOnly (Request.verify_new_student_id n b) w =
      (Accounts.Keeps-verify_student_id P L allowed full key n b).after w
  serve-IsOnly (Request.send_phone_code number) w =
      (Accounts.Keeps-send_phone_code P L allowed full key number).after w

  -- Whatever requests are answered and whatever time passes, a dead key stays kept.
  pub Leads-IsOnly :
      (w v : World Db Cache) → Leads P w v → IsOnly P allowed full w → IsOnly P allowed full v
  Leads-IsOnly w _ stays h = h
  Leads-IsOnly w _ (then_request {v} before r) h = serve-IsOnly r v (Leads-IsOnly w v before h)
  Leads-IsOnly w _ (then_time {v} before ms) h =
      let kept = Leads-IsOnly w v before h in
      record { only = λ t late. kept.only t (omega (arith, late)); undrawn = kept.undrawn }
