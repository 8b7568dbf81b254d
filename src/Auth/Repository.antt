-- ===== src/Auth/Repository.antt =====
-- src/auth/auth.repository.ts
use idp_be.Prelude.{ℕ, String, some}
use idp_be.Exec.{Exec, unauthorized}
use idp_be.Schema.{User, Authenticator}
use idp_be.Platform.{Platform, World, UserWhere, AuthenticatorWhere}
use idp_be.Database.{query, statement, on_p2025}

module _ {Db Cache Response : Type 0} (P : Platform Db Cache Response) where
  unfoldable pub find_user_by_uuid : String → Exec (World Db Cache) User
  find_user_by_uuid uuid =
      query (P.prisma.users.find_unique_or_throw (UserWhere.by_uuid uuid))
        (on_p2025 (unauthorized ""))

  unfoldable pub find_user_by_email : String → Exec (World Db Cache) User
  find_user_by_email email =
      query (P.prisma.users.find_unique_or_throw (UserWhere.by_email email))
        (on_p2025 (unauthorized ""))

  unfoldable pub find_authenticator : String → Exec (World Db Cache) Authenticator
  find_authenticator id =
      query (P.prisma.authenticators.find_unique_or_throw (AuthenticatorWhere.by_id id))
        (on_p2025 (unauthorized ""))

  unfoldable pub update_passkey_counter : String → ℕ → Exec (World Db Cache) Authenticator
  update_passkey_counter id counter w =
      statement
        (P.prisma.authenticators.update (AuthenticatorWhere.by_id id)
          (λ a. record a { counter = counter; login_at = some w.now }))
        (on_p2025 (unauthorized "")) w
