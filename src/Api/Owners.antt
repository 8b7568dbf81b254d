-- ===== src/Api/Owners.antt =====
-- Who manages the members of a client over HTTP, and that the client keeps one owner.
use idp_be.Prelude.{ℕ, String, ◌≡◌}
use idp_be.Exec.{ok}
use idp_be.Schema.{RoleType}
use idp_be.Platform.{Platform, World, later}
use idp_be.Platform.Laws.{MembershipLaws}
use idp_be.Auth.Repository as AuthRepository
use idp_be.Auth.Service as AuthService
use idp_be.Client.Service
use idp_be.Api.Http.{Credentials}
use idp_be.Api.ClientController.{add_member, remove_member, set_role}

module _ {Db Cache Response : Type 0} (P : Platform Db Cache Response) where
  module _ (M : MembershipLaws P.prisma) where
    -- A client whose members are managed: the requests on them that are answered, and time.
    pub data IsManaged (client_id : String) (w : World Db Cache) : World Db Cache → Type 0 where
      unchanged : IsManaged client_id w w
      then_time :
          {v : World Db Cache}
          → IsManaged client_id w v
          → (ms : ℕ) → IsManaged client_id w (later ms v)
      then_added :
          {v v' : World Db Cache}
          → IsManaged client_id w v
          → (creds : Credentials) (email : String)
          → add_member P creds client_id email v ≡ (ok tt, v')
          → IsManaged client_id w v'
      then_removed :
          {v v' : World Db Cache}
          → IsManaged client_id w v
          → (creds : Credentials) (user_id : String)
          → remove_member P creds client_id user_id v ≡ (ok tt, v')
          → IsManaged client_id w v'
      then_role_set :
          {v v' : World Db Cache}
          → IsManaged client_id w v
          → (creds : Credentials) (user_id : String) (role : RoleType)
          → set_role P creds client_id user_id role v ≡ (ok tt, v')
          → IsManaged client_id w v'
