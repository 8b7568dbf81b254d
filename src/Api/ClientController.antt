-- ===== src/Api/ClientController.antt =====
-- src/client/client.controller.ts: clients and their members. Parameters are as the pipes leave
-- them.
use idp_be.Prelude.{ℕ, String, Option, List, map}
use idp_be.Exec.{Exec, pure, ◌>>=◌}
use idp_be.Schema.{RoleType, owner, admin, member}
use idp_be.Platform.{Platform, World, ClientMember}
use idp_be.Client.Repository.{ClientChanges}
use idp_be.Client.Service
use idp_be.Api.Http.{Credentials, user_guard, member_guard}
use idp_be.Api.Views.{
  ClientRes, ClientPublicRes, ClientCredentialRes, client_res, client_public_res,
  client_credential_res,
}

module _ {Db Cache Response : Type 0} (P : Platform Db Cache Response) where
  unfoldable pub get_client_list : Credentials → Exec (World Db Cache) (List ClientRes)
  unfolding pure
  get_client_list creds = do
    user ← user_guard P creds
    found ← Service.get_client_list P user
    pure (map client_res found)

  unfoldable pub get_client : Credentials → (uuid : String) → Exec (World Db Cache) ClientRes
  unfolding pure
  get_client creds uuid = do
    user ← user_guard P creds
    found ← Service.get_client P uuid user
    pure (client_res found)

  unfoldable pub get_client_public :
      Credentials → (uuid : String) → Exec (World Db Cache) ClientPublicRes
  unfolding pure
  get_client_public creds uuid = do
    user ← user_guard P creds
    found ← Service.get_client_by_uuid P uuid
    pure (client_public_res found)

  unfoldable pub register_client :
      Credentials
      → (name : String) → (urls : Option (List String)) → Exec (World Db Cache) ClientCredentialRes
  unfolding pure
  register_client creds name urls = do
    user ← user_guard P creds
    created ← Service.register_client P name urls user
    pure (client_credential_res created)

  unfoldable pub get_members :
      Credentials → (uuid : String) → Exec (World Db Cache) (List ClientMember)
  get_members creds uuid = do user ← member_guard P member uuid creds; Service.get_members P uuid

  unfoldable pub add_member : Credentials → (uuid email : String) → Exec (World Db Cache) (Unit {0})
  add_member creds uuid email = do
    user ← member_guard P admin uuid creds
    Service.add_member P uuid email

  unfoldable pub remove_member :
      Credentials → (client_id user_id : String) → Exec (World Db Cache) (Unit {0})
  remove_member creds client_id user_id = do
    user ← member_guard P admin client_id creds
    Service.remove_member P client_id user_id

  unfoldable pub set_role :
      Credentials → (client_id user_id : String) → RoleType → Exec (World Db Cache) (Unit {0})
  set_role creds client_id user_id role = do
    user ← member_guard P owner client_id creds
    Service.set_role P user.uuid client_id user_id role

  unfoldable pub reset_client_secret :
      Credentials → (uuid : String) → Exec (World Db Cache) ClientCredentialRes
  unfolding pure
  reset_client_secret creds uuid = do
    user ← member_guard P admin uuid creds
    updated ← Service.reset_client_secret P uuid user
    pure (client_credential_res updated)

  unfoldable pub update_client :
      Credentials → (uuid : String) → ClientChanges → Exec (World Db Cache) ClientRes
  unfolding pure
  update_client creds uuid body = do
    user ← member_guard P admin uuid creds
    updated ← Service.update_client P uuid body user
    pure (client_res updated)

  unfoldable pub update_client_picture :
      Credentials → (uuid : String) → (length : ℕ) → Exec (World Db Cache) String
  update_client_picture creds uuid length = do
    user ← member_guard P admin uuid creds
    Service.update_client_picture P length uuid user.uuid

  unfoldable pub delete_client : Credentials → (uuid : String) → Exec (World Db Cache) (Unit {0})
  delete_client creds uuid = do
    user ← member_guard P owner uuid creds
    Service.delete_client_request P uuid user

  unfoldable pub delete_client_picture :
      Credentials → (uuid : String) → Exec (World Db Cache) (Unit {0})
  delete_client_picture creds uuid = do
    user ← member_guard P admin uuid creds
    Service.delete_client_picture P uuid user.uuid
