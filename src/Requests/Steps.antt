-- ===== src/Requests/Steps.antt =====
-- The requests that the server answers, each as one step on its state, and what happens over time:
-- requests and the passing of time, in any order.
use idp_be.Prelude.{ℕ, String, Option, List}
use idp_be.Exec.{Exec}
use idp_be.Schema.{RoleType}
use idp_be.Platform.{Platform, World, VerificationType, later}
use idp_be.Client.Repository.{ClientChanges}
use idp_be.User.Service.{Registration}
use idp_be.Oauth.Types.{AuthorizationReq, GrantContent, TokenTypeHint}
use idp_be.Api.Http.{Credentials}
use idp_be.Api.OauthController
use idp_be.Api.AuthController
use idp_be.Api.ClientController
use idp_be.Api.UserController

-- One constructor for each route, less the static ones, by the names of the controllers.
pub data Request (Response : Type 0) : Type 0 where
  consent : Credentials → (scope : List String) → (client_id : String) → Request Response
  authorize : Credentials → AuthorizationReq → Request Response
  token : (authorization : Option String) → GrantContent → Request Response
  revoke : (token : String) → Option TokenTypeHint → Request Response
  userinfo : (authorization sub : Option String) → Request Response
  login : (email password : String) → Request Response
  logout refresh : Credentials → Request Response
  authenticate_options : Request Response
  verify_authentication : (key : String) → Response → Request Response
  get_client_list : Credentials → Request Response
  get_client get_client_public : Credentials → (uuid : String) → Request Response
  register_client : Credentials → (name : String) → (urls : Option (List String)) → Request Response
  get_members : Credentials → (uuid : String) → Request Response
  add_member : Credentials → (uuid email : String) → Request Response
  remove_member : Credentials → (client_id user_id : String) → Request Response
  set_role : Credentials → (client_id user_id : String) → RoleType → Request Response
  reset_client_secret : Credentials → (uuid : String) → Request Response
  update_client : Credentials → (uuid : String) → ClientChanges → Request Response
  update_client_picture : Credentials → (uuid : String) → (length : ℕ) → Request Response
  delete_client delete_client_picture : Credentials → (uuid : String) → Request Response
  get_user get_user_consent : Credentials → Request Response
  check_email : String → Request Response
  register : Registration → Request Response
  verify_student_id : Credentials → (name birth_date : String) → Request Response
  verify_phone_number : Credentials → (phone_number code : String) → Request Response
  issue_password : String → Request Response
  change_password : Credentials → (password old_password : String) → Request Response
  update_picture : Credentials → (length : ℕ) → Request Response
  delete_user : Credentials → (password : String) → Request Response
  delete_picture get_passkey_list register_options : Credentials → Request Response
  verify_registration :
      Credentials → (name : String) → Response → (icon : Option String) → Request Response
  update_passkey : Credentials → (id name : String) → Request Response
  delete_passkey : Credentials → (id : String) → Request Response
  verify : (subject code : String) → VerificationType → Request Response
  send_email_certification_code : String → Request Response
  verify_new_student_id : (name birth_date : String) → Request Response
  send_phone_code : String → Request Response

module _ {Db Cache Response : Type 0} (P : Platform Db Cache Response) where
  -- The state that a handler leaves, however it ends.
  abbrev pub left_by : {A : Type 0} → Exec (World Db Cache) A → World Db Cache → World Db Cache
  left_by m w = (m w).1

  abbrev pub serve : Request Response → World Db Cache → World Db Cache
  serve (consent c scope id) = left_by (OauthController.consent P c scope id)
  serve (authorize c query) = left_by (OauthController.authorize P c query)
  serve (token header body) = left_by (OauthController.token P header body)
  serve (revoke t hint) = left_by (OauthController.revoke P t hint)
  serve (userinfo header sub) = left_by (OauthController.userinfo P header sub)
  serve (login email password) = left_by (AuthController.login P email password)
  serve (logout c) = left_by (AuthController.logout P c)
  serve (refresh c) = left_by (AuthController.refresh P c)
  serve authenticate_options = left_by (AuthController.authenticate_options P)
  serve (verify_authentication k r) = left_by (AuthController.verify_authentication P k r)
  serve (get_client_list c) = left_by (ClientController.get_client_list P c)
  serve (get_client c uuid) = left_by (ClientController.get_client P c uuid)
  serve (get_client_public c uuid) = left_by (ClientController.get_client_public P c uuid)
  serve (register_client c name urls) = left_by (ClientController.register_client P c name urls)
  serve (get_members c uuid) = left_by (ClientController.get_members P c uuid)
  serve (add_member c uuid email) = left_by (ClientController.add_member P c uuid email)
  serve (remove_member c uuid u) = left_by (ClientController.remove_member P c uuid u)
  serve (set_role c uuid u role) = left_by (ClientController.set_role P c uuid u role)
  serve (reset_client_secret c uuid) = left_by (ClientController.reset_client_secret P c uuid)
  serve (update_client c uuid body) = left_by (ClientController.update_client P c uuid body)
  serve (update_client_picture c uuid n) =
      left_by (ClientController.update_client_picture P c uuid n)
  serve (delete_client c uuid) = left_by (ClientController.delete_client P c uuid)
  serve (delete_client_picture c uuid) = left_by (ClientController.delete_client_picture P c uuid)
  serve (get_user c) = left_by (UserController.get_user P c)
  serve (get_user_consent c) = left_by (UserController.get_user_consent P c)
  serve (check_email email) = left_by (UserController.check_email P email)
  serve (register body) = left_by (UserController.register P body)
  serve (verify_student_id c n b) = left_by (UserController.verify_student_id P c n b)
  serve (verify_phone_number c n code) = left_by (UserController.verify_phone_number P c n code)
  serve (issue_password email) = left_by (UserController.issue_password P email)
  serve (change_password c new old) = left_by (UserController.change_password P c new old)
  serve (update_picture c n) = left_by (UserController.update_picture P c n)
  serve (delete_user c password) = left_by (UserController.delete_user P c password)
  serve (delete_picture c) = left_by (UserController.delete_picture P c)
  serve (get_passkey_list c) = left_by (UserController.get_passkey_list P c)
  serve (register_options c) = left_by (UserController.register_options P c)
  serve (verify_registration c n r icon) = left_by (UserController.verify_registration P c n r icon)
  serve (update_passkey c id name) = left_by (UserController.update_passkey P c id name)
  serve (delete_passkey c id) = left_by (UserController.delete_passkey P c id)
  serve (verify subject code hint) = left_by (UserController.verify P subject code hint)
  serve (send_email_certification_code email) =
      left_by (UserController.send_email_certification_code P email)
  serve (verify_new_student_id n b) = left_by (UserController.verify_new_student_id P n b)
  serve (send_phone_code number) = left_by (UserController.send_phone_code P number)

  -- What one state of the server leads to.
  pub data Leads (w : World Db Cache) : World Db Cache → Type 0 where
    stays : Leads w w
    then_request : {v : World Db Cache} → Leads w v → (r : Request Response) → Leads w (serve r v)
    then_time : {v : World Db Cache} → Leads w v → (ms : ℕ) → Leads w (later ms v)
