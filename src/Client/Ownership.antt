-- ===== src/Client/Ownership.antt =====
-- The one owner of a client, and the changes of roles that leave a client one owner.
use idp_be.Prelude.{
  String, ◌≡◌, ◌≢◌, sym, ap, ◌∙◌, false, Option, none, some, arith, ◌==◌, eq_iff, inl, inr,
  Bool-cases,
}
use idp_be.Schema.{RoleType, owner, UserClientRelation}
use idp_be.Platform.{Platform, World, PairKey}

abbrev pub role_in : Option UserClientRelation → Option RoleType
role_in none = none
role_in (some r) = some r.role

pub ne_of_test : (a b : String) → (a == b) ≡ false → a ≢ b
ne_of_test a b h e = ground (arith, eq_iff a b)

module _ {Db Cache Response : Type 0} (P : Platform Db Cache Response) where
  abbrev pub pair_of : (client_uuid user_uuid : String) → PairKey
  pair_of client_uuid user_uuid = record { user_uuid = user_uuid; client_uuid = client_uuid }

  -- The role that a user has in a client.
  abbrev pub role_of : World Db Cache → (client_uuid user_uuid : String) → Option RoleType
  role_of w client_uuid user_uuid =
      role_in (P.prisma.relations.row w.db (pair_of client_uuid user_uuid))

  -- One user owns the client, and nobody else does.
  pub record IsOwnedBy (w : World Db Cache) (client_uuid owner_uuid : String) : Type 0 where
    pub owns : role_of w client_uuid owner_uuid ≡ some owner
    pub alone : (u : String) → role_of w client_uuid u ≡ some owner → u ≡ owner_uuid

  pub pair-ne : (c u v : String) → u ≢ v → pair_of c u ≢ pair_of c v
  pair-ne c u v ne e = ne (ap (λ (k : PairKey). k.user_uuid) e)

  -- A change of one other user, who is no owner afterwards, leaves the owner.
  pub other_changes :
      (c o u : String) (w w' : World Db Cache)
      → IsOwnedBy w c o
      → u ≢ o
      → role_of w' c u ≢ some owner
      → ((v : String) → u ≢ v → role_of w' c v ≡ role_of w c v)
      → IsOwnedBy w' c o
  other_changes c o u w w' before ne demoted others = record {
    owns = others o ne ∙ before.owns;
    alone = λ v e. elim (Bool-cases (u == v)) [
      | inl same ↦ absurd (demoted (ap (role_of w' c) ((eq_iff u v).0 same) ∙ e))
      | inr differ ↦ before.alone v (sym (others v (ne_of_test u v differ)) ∙ e)
    ];
  }

  -- The owner hands over to another user.
  pub hands_over :
      (c o u : String) (w w' : World Db Cache)
      → IsOwnedBy w c o
      → role_of w' c u ≡ some owner
      → role_of w' c o ≢ some owner
      → ((v : String) → u ≢ v → o ≢ v → role_of w' c v ≡ role_of w c v)
      → IsOwnedBy w' c u
  hands_over c o u w w' before promoted demoted others = record {
    owns = promoted;
    alone = λ v e. elim (Bool-cases (u == v)) [
      | inl same ↦ sym ((eq_iff u v).0 same)
      | inr differ ↦ elim (Bool-cases (o == v)) [
        | inl same ↦ absurd (demoted (ap (role_of w' c) ((eq_iff o v).0 same) ∙ e))
        | inr differ' ↦
            let back =
              before.alone v
                (sym (others v (ne_of_test u v differ) (ne_of_test o v differ')) ∙ e) in
            absurd (ne_of_test o v differ' (sym back))
      ]
    ];
  }
