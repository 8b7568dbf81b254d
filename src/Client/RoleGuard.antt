-- ===== src/Client/RoleGuard.antt =====
-- src/client/guard/role.guard.ts: a route that needs a role of the user in the client. The guard
-- is handed what the request carries, each of which may be missing.
use idp_be.Prelude.{ℕ, ◌≤◌, String, ◌≡◌, sym, Bool, true, Option, none, some, ltb, ltb_false→le}
use idp_be.Exec.{
  Exec, ok, forbidden, prisma, pure, throw_if, or_throw, require_text, ◌>>=◌, ◌>>◌, >>=-returns,
  require_text-goes_on, guard-goes_on, or_throw-eq-ok, pure-eq-ok,
}
use idp_be.Schema.{RoleType, owner, admin, member, UserClientRelation}
use idp_be.Platform.{Platform, World}
use idp_be.Database.{query, query-goes_on}

abbrev pub rank : RoleType → ℕ
rank owner = 3
rank admin = 2
rank member = 1

module _ {Db Cache Response : Type 0} (P : Platform Db Cache Response) where
  unfoldable pub check_membership :
      RoleType → (user_uuid client_uuid : String) → Exec (World Db Cache) Bool
  unfolding pure
  check_membership required user_uuid client_uuid = do
    found ←
        query
          (P.prisma.relations.find_unique
            (record { user_uuid = user_uuid; client_uuid = client_uuid }))
          prisma
    membership ← or_throw found (forbidden "Not a member")
    throw_if (ltb (rank membership.role) (rank required)) (forbidden "Insufficient role")
    pure true

  unfoldable pub can_activate :
      (required : Option RoleType)
      → (user_uuid client_id : Option String) → Exec (World Db Cache) Bool
  unfolding pure check_membership
  can_activate none given_user given_client = pure true
  can_activate (some required) given_user given_client = do
    user_uuid ← require_text given_user (forbidden "Invalid request context")
    client_uuid ← require_text given_client (forbidden "Invalid request context")
    check_membership required user_uuid client_uuid

  -- The guard lets a request through that needs a role only where user and client are given, and
  -- the row that Prisma finds for the two has a role of at least that rank; the state is as before.
  pub can_activate_lem :
      (required : RoleType) (given_user given_client : Option String) (w w' : World Db Cache)
      → can_activate (some required) given_user given_client w ≡ (ok true, w')
      → (user_uuid : String) × (client_uuid : String) × (row : UserClientRelation) × (given_user
          ≡ some user_uuid)
        × (given_client ≡ some client_uuid)
        × (P.prisma.relations.find_unique
              (record { user_uuid = user_uuid; client_uuid = client_uuid })
              w.db
            ≡ ok (some row))
        × (rank required ≤ rank row.role)
        × (w ≡ w')
  unfolding can_activate check_membership pure
  can_activate_lem required given_user given_client w w' h =
      let (user_uuid, u_given, h1) = require_text-goes_on _ _ _ w h in
      let (client_uuid, c_given, h2) = require_text-goes_on _ _ _ w h1 in
      let (found, read, h3) = query-goes_on _ _ _ w h2 in
      >>=-returns _ _ w h3 λ row w1 e1 h4.
        let (there, same) = or_throw-eq-ok found _ w e1 in
        let (enough, h5) = guard-goes_on _ _ _ w1 h4 in
        (
          user_uuid,
          client_uuid,
          row,
          u_given,
          c_given,
          cc (read, there),
          ltb_false→le _ _ enough,
          cc (same, h5),
        )

  -- Where it returns, the guard answers yes.
  pub can_activate-true :
      (required : RoleType) (given_user given_client : Option String) (w : World Db Cache)
      {b : Bool} {w' : World Db Cache}
      → can_activate (some required) given_user given_client w ≡ (ok b, w')
      → b ≡ true
  unfolding can_activate check_membership
  can_activate-true required given_user given_client w h =
      let (user_uuid, u_given, h1) = require_text-goes_on _ _ _ w h in
      let (client_uuid, c_given, h2) = require_text-goes_on _ _ _ w h1 in
      let (found, read, h3) = query-goes_on _ _ _ w h2 in
      >>=-returns _ _ w h3 λ row w1 e1 h4.
        let (enough, h5) = guard-goes_on _ _ _ w1 h4 in sym (pure-eq-ok true w1 h5).0
