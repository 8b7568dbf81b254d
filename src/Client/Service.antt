-- ===== src/Client/Service.antt =====
-- src/client/client.service.ts
use idp_be.Prelude.{
  ℕ, String, ◌⋆◌, Bool, true, false, Option, some, List, [], ◌∷◌, map, not, ◌==◌, includes, filterb,
}
use idp_be.Exec.{Exec, forbidden, pure, throw_if, require_text, ◌>>=◌, ◌>>◌}
use idp_be.Schema.{User, Client, RoleType, owner}
use idp_be.Platform.{Platform, World, ClientMember}
use idp_be.Outbox.{picture_url, create_presigned_url, delete_object, post_to_slack}
use idp_be.Random.{random_bytes, strip_symbols, hash_password}
use idp_be.Client.Repository
use idp_be.Client.Repository.{ClientChanges}

abbrev pub is_owner : RoleType → Bool
is_owner owner = true
is_owner _ = false

-- The optional scopes that are not required ones, where the request gives both.
abbrev pub without_required : Option (List String) → Option (List String) → Option (List String)
without_required (some optional) (some required) =
    some (filterb (λ s. not (includes s required)) optional)
without_required optional _ = optional

abbrev pub disjoint_changes : ClientChanges → ClientChanges
disjoint_changes d = record d { optional_scopes = without_required d.optional_scopes d.scopes }

module _ {Db Cache Response : Type 0} (P : Platform Db Cache Response) where
  abbrev pub with_picture_url : Client → Client
  with_picture_url c = record c { picture = picture_url P c.picture }

  unfoldable pub get_client_list : User → Exec (World Db Cache) (List Client)
  unfolding pure picture_url
  get_client_list user = do
    found ← Repository.find_client_list_by_user_uuid P user.uuid
    pure (map with_picture_url found)

  unfoldable pub get_client : String → User → Exec (World Db Cache) Client
  unfolding pure picture_url
  get_client uuid user = do
    found ← Repository.find_client_by_uuid_and_user_uuid P uuid user.uuid
    pure (with_picture_url found)

  unfoldable pub get_client_by_uuid : String → Exec (World Db Cache) Client
  unfolding pure picture_url
  get_client_by_uuid uuid = do
    found ← Repository.find_client_by_uuid P uuid
    pure (with_picture_url found)

  -- the new secret and its hash
  unfoldable pub generate_client_secret : Exec (World Db Cache) (String × String)
  unfolding pure random_bytes hash_password strip_symbols
  generate_client_secret = do
    bytes ← random_bytes P 32
    let secret_key = strip_symbols (P.crypto.base64 bytes)
    hashed ← hash_password P secret_key
    pure (secret_key, hashed)

  unfoldable pub register_client :
      (name : String) → (urls : Option (List String)) → User → Exec (World Db Cache) Client
  unfolding pure generate_client_secret
  register_client name urls user = do
    keys ← generate_client_secret
    created ← Repository.create_client P name urls keys.1 user.uuid
    pure (record created { secret = keys.0 })

  unfoldable pub get_members : String → Exec (World Db Cache) (List ClientMember)
  unfolding pure picture_url
  get_members uuid = do
    members ← Repository.get_members_to_client P uuid
    pure (map (λ (m : ClientMember). record m { picture = picture_url P m.picture }) members)

  unfoldable pub add_member : (uuid member_email : String) → Exec (World Db Cache) (Unit {0})
  add_member uuid member_email = Repository.add_member_to_client P uuid member_email

  unfoldable pub remove_member : (uuid user_uuid : String) → Exec (World Db Cache) (Unit {0})
  unfolding throw_if
  remove_member uuid user_uuid = do
    role ← Repository.get_user_client_role P uuid user_uuid
    throw_if (is_owner role) (forbidden "Owner role cannot be removed")
    Repository.remove_member_from_client P uuid user_uuid

  -- the branch of `setRole` on the role that is asked for
  abbrev pub change_role :
      (owner_uuid client_uuid user_uuid : String) → RoleType → Exec (World Db Cache) (Unit {0})
  change_role owner_uuid client_uuid user_uuid owner =
      Repository.transfer_ownership P client_uuid owner_uuid user_uuid
  change_role owner_uuid client_uuid user_uuid role =
      Repository.set_role_to_user P client_uuid user_uuid role

  unfoldable pub set_role :
      (owner_uuid client_uuid user_uuid : String) → RoleType → Exec (World Db Cache) (Unit {0})
  unfolding throw_if
  set_role owner_uuid client_uuid user_uuid role = do
    throw_if (owner_uuid == user_uuid) (forbidden "Owner cannot change own role")
    change_role owner_uuid client_uuid user_uuid role

  unfoldable pub reset_client_secret : String → User → Exec (World Db Cache) Client
  unfolding pure generate_client_secret
  reset_client_secret uuid user = do
    keys ← generate_client_secret
    updated ← Repository.update_client_secret P uuid keys.1 user.uuid
    pure (record updated { secret = keys.0 })

  unfoldable pub update_client : String → ClientChanges → User → Exec (World Db Cache) Client
  update_client uuid changes user =
      Repository.update_client P uuid (disjoint_changes changes) user.uuid

  unfoldable pub update_client_picture :
      (length : ℕ) → (uuid user_uuid : String) → Exec (World Db Cache) String
  unfolding pure random_bytes
  update_client_picture length uuid user_uuid = do
    bytes ← random_bytes P 16
    let key = "client/" ⋆ (uuid ⋆ ("/client_" ⋆ (P.crypto.base64url bytes ⋆ ".webp")))
    presigned_url ← create_presigned_url P key length
    Repository.update_client_picture P key uuid user_uuid
    pure presigned_url

  -- The client that was found is an object, so the test `!client` never holds.
  unfoldable pub delete_client_request : String → User → Exec (World Db Cache) (Unit {0})
  unfolding post_to_slack
  delete_client_request uuid user = do
    client ← Repository.find_client_by_uuid_and_user_uuid P uuid user.uuid
    post_to_slack P (
        "Client delete request"
        ∷ ("*Client Name:*\n" ⋆ client.name)
        ∷ ("*Client ID:*\n" ⋆ client.uuid)
        ∷ ("*User Email:*\n" ⋆ user.email)
        ∷ ("*User ID:*\n" ⋆ user.uuid)
        ∷ [])
    Repository.delete_request_client P uuid user.uuid

  unfoldable pub delete_client_picture :
      (uuid user_uuid : String) → Exec (World Db Cache) (Unit {0})
  unfolding delete_object require_text
  delete_client_picture uuid user_uuid = do
    client ← Repository.find_client_by_uuid_and_user_uuid P uuid user_uuid
    picture ← require_text client.picture (forbidden "Client picture not found")
    delete_object P picture
    Repository.delete_client_picture P uuid user_uuid
