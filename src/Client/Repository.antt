-- ===== src/Client/Repository.antt =====
-- src/client/client.repository.ts
use idp_be.Prelude.{String, Bool, false, Option, none, some, List, []}
use idp_be.Exec.{
  Exec, Result, ok, err, PrismaError, not_found, conflict, internal, prisma, pure, or_throw, ◌>>=◌,
  ◌>>◌,
}
use idp_be.Schema.{Client, UserClientRelation, RoleType, owner, admin, member}
use idp_be.Platform.{Platform, World, UserWhere, ClientWhere, PairKey, ClientMember}
use idp_be.Database.{query, statement, on_p2025, on_p2002, on_p2025_or_p2002}

-- A field of a Prisma `data` object: `undefined` leaves the column alone.
abbrev pub or_keep {ℓ} : {A : Type ℓ} → Option A → A → A
or_keep none old = old
or_keep (some new) old = new

-- `Pick<Client, 'uuid'> & Partial<Pick<Client, …>>`
pub record ClientChanges : Type 0 where
  pub name : Option String
  pub urls : Option (List String)
  pub scopes : Option (List String)
  pub optional_scopes : Option (List String)
  pub id_token_allowed : Option Bool

abbrev pub apply_changes : ClientChanges → Client → Client
apply_changes d c = record c {
  name = or_keep d.name c.name;
  urls = or_keep d.urls c.urls;
  scopes = or_keep d.scopes c.scopes;
  optional_scopes = or_keep d.optional_scopes c.optional_scopes;
  id_token_allowed = or_keep d.id_token_allowed c.id_token_allowed;
}

-- The end of a `$transaction` callback, which returns nothing.
abbrev pub ended :
    {Db : Type 0} → Result PrismaError UserClientRelation × Db → Result PrismaError (Unit {0}) × Db
ended (ok _, d) = (ok tt, d)
ended (err e, d) = (err e, d)

module _ {Db Cache Response : Type 0} (P : Platform Db Cache Response) where
  unfoldable pub find_client_list_by_user_uuid : String → Exec (World Db Cache) (List Client)
  find_client_list_by_user_uuid user_uuid =
      query (P.prisma.clients.find_many (ClientWhere.linked_to user_uuid)) prisma

  unfoldable pub find_client_by_uuid : String → Exec (World Db Cache) Client
  find_client_by_uuid uuid =
      query (P.prisma.clients.find_unique_or_throw (ClientWhere.by_uuid uuid))
        (on_p2025 (not_found ""))

  unfoldable pub find_client_by_uuid_and_user_uuid :
      (uuid user_uuid : String) → Exec (World Db Cache) Client
  find_client_by_uuid_and_user_uuid uuid user_uuid =
      query (P.prisma.clients.find_unique_or_throw (ClientWhere.by_uuid_and_user uuid user_uuid))
        (on_p2025 (not_found ""))

  -- The columns that the call does not name have the defaults of the schema.
  unfoldable pub create_client :
      (name : String)
      → (urls : Option (List String)) → (secret user_uuid : String) → Exec (World Db Cache) Client
  create_client name urls secret user_uuid =
      statement
        (P.prisma.create_client_linked
          (λ id. record {
            uuid = id;
            secret = secret;
            name = name;
            picture = none;
            urls = or_keep urls [];
            delete_requested_at = none;
            id_token_allowed = false;
            scopes = [];
            optional_scopes = [];
          })
          user_uuid owner)
        (on_p2002 (conflict "Client already exists"))

  -- The five updates below share their `where` and their handler.
  unfoldable pub update_own_client :
      (uuid user_uuid : String) → (Client → Client) → Exec (World Db Cache) Client
  update_own_client uuid user_uuid change =
      statement (P.prisma.clients.update (ClientWhere.by_uuid_and_user uuid user_uuid) change)
        (on_p2025 (not_found ""))

  unfoldable pub update_client_secret :
      (uuid secret user_uuid : String) → Exec (World Db Cache) Client
  unfolding update_own_client
  update_client_secret uuid secret user_uuid =
      update_own_client uuid user_uuid (λ c. record c { secret = secret })

  unfoldable pub update_client :
      (uuid : String) → ClientChanges → (user_uuid : String) → Exec (World Db Cache) Client
  unfolding update_own_client
  update_client uuid changes user_uuid = update_own_client uuid user_uuid (apply_changes changes)

  unfoldable pub get_members_to_client : String → Exec (World Db Cache) (List ClientMember)
  get_members_to_client uuid = query (P.prisma.find_members uuid) (λ _. internal "")

  unfoldable pub add_member_to_client :
      (uuid member_email : String) → Exec (World Db Cache) (Unit {0})
  unfolding pure
  add_member_to_client uuid member_email = do
    found ← query (P.prisma.users.find_unique (UserWhere.by_email member_email)) prisma
    user ← or_throw found (not_found "User not found")
    statement
        (P.prisma.link_user uuid
          (record { user_uuid = user.uuid; client_uuid = uuid; role = member }))
        (on_p2025_or_p2002 (not_found "") (conflict ""))
    pure tt

  unfoldable pub update_client_picture :
      (picture uuid user_uuid : String) → Exec (World Db Cache) Client
  unfolding update_own_client
  update_client_picture picture uuid user_uuid =
      update_own_client uuid user_uuid (λ c. record c { picture = some picture })

  unfoldable pub set_role_to_user :
      (uuid user_uuid : String) → RoleType → Exec (World Db Cache) (Unit {0})
  unfolding pure
  set_role_to_user uuid user_uuid role = do
    statement
        (P.prisma.relations.update (record { user_uuid = user_uuid; client_uuid = uuid })
          (λ r. record r { role = role }))
        (on_p2025 (not_found ""))
    pure tt

  -- The callback of `$transaction`: the second update runs where the first succeeded.
  abbrev pub second_update :
      PairKey → Result PrismaError UserClientRelation × Db → Result PrismaError (Unit {0}) × Db
  second_update key (err e, d) = (err e, d)
  second_update key (ok _, d) =
      ended (P.prisma.relations.update key (λ r. record r { role = owner }) d)

  unfoldable pub transfer_ownership :
      (client_uuid current_owner_uuid new_owner_uuid : String) → Exec (World Db Cache) (Unit {0})
  transfer_ownership client_uuid current_owner_uuid new_owner_uuid =
      statement
        (P.prisma.transaction (λ d.
          second_update (record { user_uuid = new_owner_uuid; client_uuid = client_uuid })
            (P.prisma.relations.update
              (record { user_uuid = current_owner_uuid; client_uuid = client_uuid })
              (λ r. record r { role = admin }) d)))
        (on_p2025 (not_found ""))

  unfoldable pub delete_request_client :
      (uuid user_uuid : String) → Exec (World Db Cache) (Unit {0})
  unfolding update_own_client pure
  delete_request_client uuid user_uuid = do
    (λ w. update_own_client uuid user_uuid (λ c. record c { delete_requested_at = some w.now }) w)
    pure tt

  unfoldable pub remove_member_from_client :
      (uuid user_uuid : String) → Exec (World Db Cache) (Unit {0})
  unfolding pure
  remove_member_from_client uuid user_uuid = do
    statement (P.prisma.unlink_user uuid (record { user_uuid = user_uuid; client_uuid = uuid }))
        (on_p2025 (not_found ""))
    pure tt

  unfoldable pub delete_client_picture :
      (uuid user_uuid : String) → Exec (World Db Cache) (Unit {0})
  unfolding update_own_client pure
  delete_client_picture uuid user_uuid = do
    update_own_client uuid user_uuid (λ c. record c { picture = none })
    pure tt

  unfoldable pub get_user_client_role :
      (client_uuid user_uuid : String) → Exec (World Db Cache) RoleType
  unfolding pure
  get_user_client_role client_uuid user_uuid = do
    r ←
        query
          (P.prisma.relations.find_unique_or_throw
            (record { user_uuid = user_uuid; client_uuid = client_uuid }))
          (on_p2025 (not_found ""))
    pure r.role
