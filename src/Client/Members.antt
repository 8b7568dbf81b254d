-- ===== src/Client/Members.antt =====
-- `setRole`, `addMember` and `removeMember` (src/client/client.service.ts): a client keeps one owner.
use idp_be.Prelude.{String, ◌≡◌, ◌≢◌, refl, sym, ap, ◌∙◌, false, none, some}
use idp_be.Exec.{
  Result, ok, err, PrismaError, >>=-returns, guard-goes_on, pure-eq-ok, or_throw-eq-ok,
}
use idp_be.Schema.{RoleType, owner, admin, member, UserClientRelation}
use idp_be.Platform.{Platform, World, PairKey}
use idp_be.Platform.Laws.{MembershipLaws}
use idp_be.Database.{query-goes_on, statement-eq-ok}
use idp_be.Client.Repository
use idp_be.Client.Repository.{second_update, ended}
use idp_be.Client.Service.{is_owner, add_member, remove_member, change_role, set_role}
use idp_be.Client.Ownership.{
  role_in, ne_of_test, pair_of, role_of, IsOwnedBy, pair-ne, other_changes, hands_over,
}

not_owner : (role : RoleType) → is_owner role ≡ false → some role ≢ some owner
not_owner owner h e = cc
not_owner admin h e = cc
not_owner member h e = cc

-- the owner after a role was set
abbrev pub owner_after : (owner_uuid user_uuid : String) → RoleType → String
owner_after owner_uuid user_uuid owner = user_uuid
owner_after owner_uuid user_uuid _ = owner_uuid

module _ {Db Cache Response : Type 0} (P : Platform Db Cache Response) where
  module _ (M : MembershipLaws P.prisma) where
    update_role :
        (key : PairKey) (role : RoleType) (db db' : Db) (r : UserClientRelation)
        → P.prisma.relations.update key (λ r. record r { role = role }) db ≡ (ok r, db')
        → (role_in (P.prisma.relations.row db' key) ≡ some role)
          × ((j : PairKey) → key ≢ j → P.prisma.relations.row db' j ≡ P.prisma.relations.row db j)
    update_role key role db db' r h =
        let (old, was, shape, full) = M.table.update_stores key _ db db' r (λ x. refl) h in
        (
          ap role_in full ∙ ap (λ (x : UserClientRelation). some x.role) shape,
          M.table.update_other key _ db db' r (λ x. refl) h,
        )

    set_role_to_user-eq-ok :
        (c u : String) (role : RoleType) (w w' : World Db Cache)
        → Repository.set_role_to_user P c u role w ≡ (ok tt, w')
        → (role_of P w' c u ≡ some role)
          × ((v : String) → u ≢ v → role_of P w' c v ≡ role_of P w c v)
    unfolding Repository.set_role_to_user
    set_role_to_user-eq-ok c u role w w' h = >>=-returns _ _ w h λ r w1 e1 h1.
        let (d, updated, same) = statement-eq-ok _ _ w e1 in
        let there = sym (pure-eq-ok tt w1 h1).1 ∙ same in
        let (full, others) = update_role (pair_of P c u) role w.db d r updated in
        (
          ap (λ x. role_of P x c u) there ∙ full,
          λ v ne. ap (λ x. role_of P x c v) there ∙ ap role_in (others _ (pair-ne P c u v ne)),
        )

    ended-eq-ok :
        (r : Result PrismaError UserClientRelation × Db) {d : Db}
        → ended r ≡ (ok tt, d)
        → (row : UserClientRelation) × (r ≡ (ok row, d))
    ended-eq-ok (ok row, d') h = (row, cc)
    ended-eq-ok (err e, d') h = cc

    second_update-eq-ok :
        (key : PairKey) (r : Result PrismaError UserClientRelation × Db) {d : Db}
        → second_update P key r ≡ (ok tt, d)
        → (row : UserClientRelation) × (d1 : Db) × (row' : UserClientRelation) × (r ≡ (ok row, d1))
          × (P.prisma.relations.update key (λ r. record r { role = owner }) d1 ≡ (ok row', d))
    second_update-eq-ok key (ok row, d1) h =
        let (row', updated) = ended-eq-ok _ h in (row, d1, row', refl, updated)
    second_update-eq-ok key (err e, d1) h = cc

    transfer-eq-ok :
        (c o u : String) (w w' : World Db Cache)
        → o ≢ u
        → Repository.transfer_ownership P c o u w ≡ (ok tt, w')
        → (role_of P w' c u ≡ some owner)
          × (role_of P w' c o ≡ some admin)
          × ((v : String) → u ≢ v → o ≢ v → role_of P w' c v ≡ role_of P w c v)
    unfolding Repository.transfer_ownership
    transfer-eq-ok c o u w w' ne h =
        let (d, committed, there) = statement-eq-ok _ _ w h in
        let body = M.transaction_commits _ w.db d committed in
        let (row, d1, row', first, second) = second_update-eq-ok (pair_of P c u) _ body in
        let (demoted, others1) = update_role (pair_of P c o) admin w.db d1 row first in
        let (promoted, others2) = update_role (pair_of P c u) owner d1 d row' second in
        (
          ap (λ x. role_of P x c u) there ∙ promoted,
          ap (λ x. role_of P x c o) there
              ∙ ap role_in (others2 _ (pair-ne P c u o (λ e. ne (sym e))))
              ∙ demoted,
          λ v nu no.
              ap (λ x. role_of P x c v) there
              ∙ ap role_in (others2 _ (pair-ne P c u v nu) ∙ others1 _ (pair-ne P c o v no)),
        )

    change_role-IsOwnedBy :
        (o c u : String) (role : RoleType) (w w' : World Db Cache)
        → o ≢ u
        → IsOwnedBy P w c o
        → change_role P o c u role w ≡ (ok tt, w')
        → IsOwnedBy P w' c (owner_after o u role) × (role_of P w' c u ≡ some role)
    change_role-IsOwnedBy o c u owner w w' ne before h =
        let (promoted, demoted, others) = transfer-eq-ok c o u w w' ne h in
        (hands_over P c o u w w' before promoted (λ e. cc (demoted, e)) others, promoted)
    change_role-IsOwnedBy o c u admin w w' ne before h =
        let (full, others) = set_role_to_user-eq-ok c u admin w w' h in
        (other_changes P c o u w w' before (λ e. ne (sym e)) (λ e. cc (full, e)) others, full)
    change_role-IsOwnedBy o c u member w w' ne before h =
        let (full, others) = set_role_to_user-eq-ok c u member w w' h in
        (other_changes P c o u w w' before (λ e. ne (sym e)) (λ e. cc (full, e)) others, full)

    -- Where the only owner of a client sets a role, the user has that role afterwards, is not the
    -- owner himself, and the client still has one owner: the user where the role is the owner's,
    -- and the same as before otherwise.
    pub set_role-IsOwnedBy :
        (owner_uuid client_uuid user_uuid : String) (role : RoleType) (w w' : World Db Cache)
        → IsOwnedBy P w client_uuid owner_uuid
        → set_role P owner_uuid client_uuid user_uuid role w ≡ (ok tt, w')
        → (owner_uuid ≢ user_uuid)
          × IsOwnedBy P w' client_uuid (owner_after owner_uuid user_uuid role)
          × (role_of P w' client_uuid user_uuid ≡ some role)
    unfolding set_role
    set_role-IsOwnedBy o c u role w w' before h =
        let (differ, h1) = guard-goes_on _ _ _ w h in
        let ne = ne_of_test o u differ in
        let (after, full) = change_role-IsOwnedBy o c u role w w' ne before h1 in (ne, after, full)

    -- Removing a member never removes the owner: the client keeps the owner it had, the removed
    -- user has no role left, and every other user keeps theirs.
    pub remove_member-IsOwnedBy :
        (client_uuid user_uuid owner_uuid : String) (w w' : World Db Cache)
        → IsOwnedBy P w client_uuid owner_uuid
        → remove_member P client_uuid user_uuid w ≡ (ok tt, w')
        → IsOwnedBy P w' client_uuid owner_uuid
          × (role_of P w' client_uuid user_uuid ≡ none)
          × ((v : String) → user_uuid ≢ v → role_of P w' client_uuid v ≡ role_of P w client_uuid v)
    unfolding remove_member Repository.get_user_client_role Repository.remove_member_from_client
    remove_member-IsOwnedBy c u o w w' before h = >>=-returns _ _ w h λ role w1 e1 h1.
        let (row, read, e2) = query-goes_on _ _ _ w e1 in
        let (same_role, same) = pure-eq-ok _ w e2 in
        let (no_owner, h2) = guard-goes_on _ _ _ w1 h1 in
        >>=-returns _ _ w1 h2 λ cl w2 e3 h3.
          let (d, removed, moved) = statement-eq-ok _ _ w1 e3 in
          let there = sym (pure-eq-ok tt w2 h3).1 ∙ moved in
          let (gone, others) = M.unlink_removes c (pair_of P c u) w1.db d cl removed in
          let had : role_of P w c u ≡ some role =
            ap role_in (M.table.find_reads (pair_of P c u) w.db row read) ∙ ap some same_role in
          let gone' = ap (λ x. role_of P x c u) there ∙ ap role_in gone in
          let others' = λ (v : String) (ne : u ≢ v).
            ap (λ x. role_of P x c v) there
            ∙ ap role_in (others _ (pair-ne P c u v ne))
            ∙ ap (λ x. role_of P x c v) (sym same) in
          (
            other_changes P c o u w w' before
                (λ e. not_owner role no_owner (sym had ∙ ap (role_of P w c) e ∙ before.owns))
                (λ e. cc (gone', e)) others',
            gone',
            others',
          )

    -- Adding a member, who had no role before, leaves the owner and gives the new one the role of a
    -- member.
    pub add_member-IsOwnedBy :
        (client_uuid member_email owner_uuid : String) (w w' : World Db Cache)
        → IsOwnedBy P w client_uuid owner_uuid
        → add_member P client_uuid member_email w ≡ (ok tt, w')
        → IsOwnedBy P w' client_uuid owner_uuid
          × ((user_uuid : String) × (role_of P w client_uuid user_uuid ≡ none)
              × (role_of P w' client_uuid user_uuid ≡ some member))
    unfolding add_member Repository.add_member_to_client
    add_member-IsOwnedBy c email o w w' before h =
        let (found, read, h1) = query-goes_on _ _ _ w h in
        >>=-returns _ _ w h1 λ user w1 e1 h2.
          let (there, same) = or_throw-eq-ok found _ w e1 in
          >>=-returns _ _ w1 h2 λ cl w2 e2 h3.
            let (d, linked, moved) = statement-eq-ok _ _ w1 e2 in
            let ended = sym (pure-eq-ok tt w2 h3).1 ∙ moved in
            let (empty, full, others) = M.link_creates c _ w1.db d cl linked in
            let u = user.uuid in
            let new_before : role_of P w c u ≡ none =
              ap (λ x. role_of P x c u) same ∙ ap role_in empty in
            let new_after : role_of P w' c u ≡ some member =
              ap (λ x. role_of P x c u) ended ∙ ap role_in full in
            (
              other_changes P c o u w w' before
                  (λ e. cc (sym new_before ∙ ap (role_of P w c) e ∙ before.owns))
                  (λ e. cc (new_after, e))
                  (λ v ne.
                    ap (λ x. role_of P x c v) ended
                    ∙ ap role_in (others _ (pair-ne P c u v ne))
                    ∙ ap (λ x. role_of P x c v) (sym same)),
              (u, new_before, new_after),
            )
