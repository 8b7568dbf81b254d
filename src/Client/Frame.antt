-- ===== src/Client/Frame.antt =====
-- No operation of src/client touches the cache.
use idp_be.Prelude.{ℕ, String, Option, some, List}
use idp_be.Exec.Keeps.{Keeps, Keeps-by_state, Keeps-bind, Keeps-pure}
use idp_be.Schema.{User, Client, RoleType, owner, admin, member}
use idp_be.Platform.{Platform, World}
use idp_be.Database.Keeps.{CacheOnly, Keeps-statement, steps_rules}
use idp_be.Outbox.Keeps.{outbox_rules}
use idp_be.Client.Repository
use idp_be.Client.Repository.{ClientChanges}
use idp_be.Client.Service
use idp_be.Client.RoleGuard

module _ {Db Cache Response : Type 0} (P : Platform Db Cache Response) {Q : World Db Cache → Type 0}
    (c : CacheOnly Q) where
  pub Keeps-get_client_list : (user : User) → Keeps Q (Service.get_client_list P user)
  unfolding Service.get_client_list Repository.find_client_list_by_user_uuid
  Keeps-get_client_list user = search steps_rules

  pub Keeps-get_client : (uuid : String) (user : User) → Keeps Q (Service.get_client P uuid user)
  unfolding Service.get_client Repository.find_client_by_uuid_and_user_uuid
  Keeps-get_client uuid user = search steps_rules

  pub Keeps-get_client_by_uuid : (uuid : String) → Keeps Q (Service.get_client_by_uuid P uuid)
  unfolding Service.get_client_by_uuid Repository.find_client_by_uuid
  Keeps-get_client_by_uuid uuid = search steps_rules

  pub Keeps-register_client :
      (name : String) (urls : Option (List String)) (user : User)
      → Keeps Q (Service.register_client P name urls user)
  unfolding Service.register_client Service.generate_client_secret Repository.create_client
  Keeps-register_client name urls user = search steps_rules

  pub Keeps-get_members : (uuid : String) → Keeps Q (Service.get_members P uuid)
  unfolding Service.get_members Repository.get_members_to_client
  Keeps-get_members uuid = search steps_rules

  pub Keeps-add_member : (uuid email : String) → Keeps Q (Service.add_member P uuid email)
  unfolding Service.add_member Repository.add_member_to_client
  Keeps-add_member uuid email = search steps_rules

  pub Keeps-remove_member :
      (uuid user_uuid : String) → Keeps Q (Service.remove_member P uuid user_uuid)
  unfolding Service.remove_member Repository.get_user_client_role
      Repository.remove_member_from_client
  Keeps-remove_member uuid user_uuid = search steps_rules

  Keeps-change_role :
      (owner_uuid uuid user_uuid : String) (role : RoleType)
      → Keeps Q (Service.change_role P owner_uuid uuid user_uuid role)
  unfolding Repository.transfer_ownership Repository.set_role_to_user
  Keeps-change_role owner_uuid uuid user_uuid owner = search steps_rules
  Keeps-change_role owner_uuid uuid user_uuid admin = search steps_rules
  Keeps-change_role owner_uuid uuid user_uuid member = search steps_rules

  pub Keeps-set_role :
      (owner_uuid uuid user_uuid : String) (role : RoleType)
      → Keeps Q (Service.set_role P owner_uuid uuid user_uuid role)
  unfolding Service.set_role
  Keeps-set_role owner_uuid uuid user_uuid role = search (steps_rules, Keeps-change_role)

  pub Keeps-reset_client_secret :
      (uuid : String) (user : User) → Keeps Q (Service.reset_client_secret P uuid user)
  unfolding Service.reset_client_secret Service.generate_client_secret
      Repository.update_client_secret Repository.update_own_client
  Keeps-reset_client_secret uuid user = search steps_rules

  pub Keeps-update_client :
      (uuid : String) (changes : ClientChanges) (user : User)
      → Keeps Q (Service.update_client P uuid changes user)
  unfolding Service.update_client Repository.update_client Repository.update_own_client
  Keeps-update_client uuid changes user = search steps_rules

  pub Keeps-update_client_picture :
      (length : ℕ) (uuid user_uuid : String)
      → Keeps Q (Service.update_client_picture P length uuid user_uuid)
  unfolding Service.update_client_picture Repository.update_client_picture
      Repository.update_own_client
  Keeps-update_client_picture length uuid user_uuid = search (steps_rules, outbox_rules)

  Keeps-request_deletion :
      (uuid user_uuid : String) → Keeps Q (Repository.delete_request_client P uuid user_uuid)
  unfolding Repository.delete_request_client Repository.update_own_client
  Keeps-request_deletion uuid user_uuid =
      Keeps-bind _ _
        (Keeps-by_state
          (λ w.
            Repository.update_own_client P uuid user_uuid
              (λ (x : Client). record x { delete_requested_at = some w.now }))
          (λ w. Keeps-statement _ _ c))
        (λ _. Keeps-pure _)

  pub Keeps-delete_client_request :
      (uuid : String) (user : User) → Keeps Q (Service.delete_client_request P uuid user)
  unfolding Service.delete_client_request Repository.find_client_by_uuid_and_user_uuid
  Keeps-delete_client_request uuid user = search (steps_rules, outbox_rules, Keeps-request_deletion)

  pub Keeps-delete_client_picture :
      (uuid user_uuid : String) → Keeps Q (Service.delete_client_picture P uuid user_uuid)
  unfolding Service.delete_client_picture Repository.find_client_by_uuid_and_user_uuid
      Repository.delete_client_picture Repository.update_own_client
  Keeps-delete_client_picture uuid user_uuid = search (steps_rules, outbox_rules)

  pub Keeps-can_activate :
      (required : RoleType) (user_uuid client_uuid : Option String)
      → Keeps Q (RoleGuard.can_activate P (some required) user_uuid client_uuid)
  unfolding RoleGuard.can_activate RoleGuard.check_membership
  Keeps-can_activate required user_uuid client_uuid = search steps_rules depth 9
