-- ===== src/User/Repository.antt =====
-- src/user/user.repository.ts. `findUserByEmail` also includes the user's authenticators, of which
-- only `registerOptions` uses the ids: it reads them by `authenticator_ids`.
use idp_be.Prelude.{ℕ, String, Bool, true, false, Option, none, some, List, map}
use idp_be.Exec.{Exec, forbidden, conflict, prisma, pure, ◌>>=◌, ◌>>◌}
use idp_be.Schema.{User, Authenticator}
use idp_be.Platform.{Platform, World, UserWhere, AuthenticatorWhere, UserConsent}
use idp_be.Database.{query, statement, on_p2025, on_p2002, on_p2025_or_p2002}

-- What `createUser` is given.
pub record NewUser : Type 0 where
  pub email : String
  pub password : String
  pub name : String
  pub student_id : String
  pub phone_number : String
  pub is_phone_number_verified : Bool

-- The row of a new user; the id comes from the engine.
abbrev pub user_row : NewUser → String → User
user_row u id = record {
  uuid = id;
  password = u.password;
  profile = none;
  picture = none;
  name = u.name;
  email = u.email;
  student_id = u.student_id;
  phone_number = u.phone_number;
  is_id_verified = true;
  is_phone_number_verified = u.is_phone_number_verified;
}

abbrev is_some {ℓ} : {A : Type ℓ} → Option A → Bool
is_some none = false
is_some (some _) = true

module _ {Db Cache Response : Type 0} (P : Platform Db Cache Response) where
  unfoldable pub find_user_by_email : String → Exec (World Db Cache) User
  find_user_by_email email =
      query (P.prisma.users.find_unique_or_throw (UserWhere.by_email email))
        (on_p2025_or_p2002 (forbidden "user not found") (forbidden "user not found"))

  -- `include: { authenticators: true }`
  unfoldable pub authenticator_ids : String → Exec (World Db Cache) (List String)
  unfolding pure
  authenticator_ids user_uuid = do
    found ← query (P.prisma.authenticators.find_many (AuthenticatorWhere.of_user user_uuid)) prisma
    pure (map (λ (a : Authenticator). a.id) found)

  unfoldable pub check_email : String → Exec (World Db Cache) Bool
  unfolding pure
  check_email email = do
    found ← query (P.prisma.users.find_unique (UserWhere.by_email email)) prisma
    pure (is_some found)

  unfoldable pub find_user_by_uuid : String → Exec (World Db Cache) User
  find_user_by_uuid uuid =
      query (P.prisma.users.find_unique_or_throw (UserWhere.by_uuid uuid))
        (on_p2025 (forbidden "user not found"))

  unfoldable pub find_user_consent_by_uuid : String → Exec (World Db Cache) (List UserConsent)
  find_user_consent_by_uuid uuid = query (P.prisma.find_user_consents uuid) prisma

  unfoldable pub create_user : NewUser → Exec (World Db Cache) (Unit {0})
  unfolding pure
  create_user u = do
    statement (P.prisma.users.create (user_row u)) (on_p2002 (conflict "user already exists"))
    pure tt

  -- The updates of one user share their `where`, and all but one their handler.
  unfoldable pub update_user : String → (User → User) → Exec (World Db Cache) (Unit {0})
  unfolding pure
  update_user uuid change = do
    statement (P.prisma.users.update (UserWhere.by_uuid uuid) change)
        (on_p2025_or_p2002 (forbidden "user not found") (forbidden "user not found"))
    pure tt

  unfoldable pub update_student_id :
      (uuid name student_id : String) → Exec (World Db Cache) (Unit {0})
  unfolding update_user
  update_student_id uuid name student_id =
      update_user uuid
        (λ u. record u { name = name; student_id = student_id; is_id_verified = true })

  unfoldable pub update_phone_number :
      (uuid phone_number : String) → Exec (World Db Cache) (Unit {0})
  unfolding update_user
  update_phone_number uuid phone_number =
      update_user uuid
        (λ u. record u { phone_number = phone_number; is_phone_number_verified = true })

  unfoldable pub update_user_password : (uuid password : String) → Exec (World Db Cache) (Unit {0})
  unfolding update_user
  update_user_password uuid password = update_user uuid (λ u. record u { password = password })

  unfoldable pub update_user_picture : (picture uuid : String) → Exec (World Db Cache) (Unit {0})
  unfolding update_user
  update_user_picture picture uuid = update_user uuid (λ u. record u { picture = some picture })

  unfoldable pub delete_user : String → Exec (World Db Cache) (Unit {0})
  unfolding pure
  delete_user uuid = do
    statement (P.prisma.users.delete (UserWhere.by_uuid uuid))
        (on_p2025 (forbidden "user not found"))
    pure tt

  unfoldable pub delete_user_picture : String → Exec (World Db Cache) (Unit {0})
  unfolding pure
  delete_user_picture uuid = do
    statement (P.prisma.users.update (UserWhere.by_uuid uuid) (λ u. record u { picture = none }))
        (on_p2025 (forbidden "user not found"))
    pure tt

  unfoldable pub get_passkey_list : String → Exec (World Db Cache) (List Authenticator)
  get_passkey_list user_uuid =
      query (P.prisma.authenticators.find_many (AuthenticatorWhere.of_user user_uuid)) prisma

  unfoldable pub get_authenticator : String → Exec (World Db Cache) Authenticator
  get_authenticator id =
      query (P.prisma.authenticators.find_unique_or_throw (AuthenticatorWhere.by_id id))
        (on_p2025 (forbidden "user not found"))

  unfoldable pub save_authenticator :
      (id name : String)
      → (icon : Option String) → (public_key : List ℕ) → (counter : ℕ) → (user_uuid : String)
      → Exec (World Db Cache) Authenticator
  save_authenticator id name icon public_key counter user_uuid =
      statement
        (P.prisma.authenticators.create (λ _. record {
          id = id;
          name = name;
          icon = icon;
          public_key = public_key;
          counter = counter;
          user_uuid = user_uuid;
          login_at = none;
        }))
        (on_p2002 (conflict "conflict credentialId"))

  unfoldable pub update_passkey : (id name : String) → Exec (World Db Cache) (Unit {0})
  unfolding pure
  update_passkey id name = do
    statement
        (P.prisma.authenticators.update (AuthenticatorWhere.by_id id)
          (λ a. record a { name = name }))
        (on_p2025_or_p2002 (forbidden "passkey not found") (forbidden "passkey not found"))
    pure tt

  unfoldable pub delete_passkey : String → Exec (World Db Cache) (Unit {0})
  unfolding pure
  delete_passkey id = do
    statement (P.prisma.authenticators.delete (AuthenticatorWhere.by_id id))
        (on_p2025 (forbidden "passkey not found"))
    pure tt
