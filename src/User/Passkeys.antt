-- ===== src/User/Passkeys.antt =====
-- `updatePasskey` and `deletePasskey` (src/user/user.service.ts): only the owner's.
use idp_be.Prelude.{not-eq-false, String, ◌≡◌, ◌≢◌, refl, sym, ap, ◌∙◌, Option, none, some, eq_iff}
use idp_be.Exec.{ok, >>=-returns, guard-goes_on, pure-eq-ok}
use idp_be.Schema.{Authenticator}
use idp_be.Platform.{Platform, World, AuthenticatorWhere}
use idp_be.Platform.Laws.{TableLaws}
use idp_be.Database.{query-goes_on, statement-eq-ok}
use idp_be.User.Repository
use idp_be.User.Service.{update_passkey, delete_passkey}

abbrev pub credential_id : Authenticator → String
credential_id a = a.id

module _ {Db Cache Response : Type 0} (P : Platform Db Cache Response)
    (T : TableLaws P.prisma.authenticators credential_id AuthenticatorWhere.by_id) where
  abbrev pub passkey : World Db Cache → String → Option Authenticator
  passkey w id = P.prisma.authenticators.row w.db id

  -- Whoever renames a passkey owns it; its name alone changes, and no other passkey does.
  pub update_passkey_renames :
      (id name user_uuid : String) (w w' : World Db Cache)
      → update_passkey P id name user_uuid w ≡ (ok tt, w')
      → (a : Authenticator) × (passkey w id ≡ some a)
        × (a.user_uuid ≡ user_uuid)
        × (passkey w' id ≡ some (record a { name = name }))
        × ((other : String) → id ≢ other → passkey w' other ≡ passkey w other)
  unfolding update_passkey Repository.get_authenticator Repository.update_passkey
  update_passkey_renames id name user_uuid w w' h =
      let (a, read, h1) = query-goes_on _ _ _ w h in
      let (owned, h2) = guard-goes_on _ _ _ w h1 in
      >>=-returns _ _ w h2 λ r w1 e1 h3.
        let (d, updated, same) = statement-eq-ok _ _ w e1 in
        let there = sym (pure-eq-ok tt w1 h3).1 ∙ same in
        let found = T.find_reads id w.db a read in
        let (old, was, shape, full) = T.update_stores id _ w.db d r (λ x. refl) updated in
        let unchanged : old ≡ a = cc (was, found) in
        (
          a,
          found,
          (eq_iff a.user_uuid user_uuid).0 (not-eq-false _ owned),
          ap (λ x. passkey x id) there
              ∙ full
              ∙ ap some (shape ∙ ap (λ (x : Authenticator). record x { name = name }) unchanged),
          λ other ne.
              ap (λ x. passkey x other) there
              ∙ T.update_other id _ w.db d r (λ x. refl) updated other ne,
        )

  -- Whoever deletes a passkey owns it; it is gone then, and every other passkey is as before.
  pub delete_passkey_removes :
      (id user_uuid : String) (w w' : World Db Cache)
      → delete_passkey P id user_uuid w ≡ (ok tt, w')
      → (a : Authenticator) × (passkey w id ≡ some a)
        × (a.user_uuid ≡ user_uuid)
        × (passkey w' id ≡ none)
        × ((other : String) → id ≢ other → passkey w' other ≡ passkey w other)
  unfolding delete_passkey Repository.get_authenticator Repository.delete_passkey
  delete_passkey_removes id user_uuid w w' h =
      let (a, read, h1) = query-goes_on _ _ _ w h in
      let (owned, h2) = guard-goes_on _ _ _ w h1 in
      >>=-returns _ _ w h2 λ r w1 e1 h3.
        let (d, removed, same) = statement-eq-ok _ _ w e1 in
        let there = sym (pure-eq-ok tt w1 h3).1 ∙ same in
        (
          a,
          T.find_reads id w.db a read,
          (eq_iff a.user_uuid user_uuid).0 (not-eq-false _ owned),
          ap (λ x. passkey x id) there ∙ (T.delete_removes id w.db d r removed).1,
          λ other ne. ap (λ x. passkey x other) there ∙ T.delete_other id w.db d r removed other ne,
        )
