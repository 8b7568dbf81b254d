-- ===== src/User/Passwords.antt =====
-- `verifyPhoneNumber`, `changePassword` and `issuePassword` (src/user/user.service.ts).
use idp_be.Prelude.{
  not-eq-false, ℕ, ◌+◌, ◌≤◌, String, ◌≡◌, refl, sym, ap, ◌∙◌, true, none, some, ◌∷◌, arith,
}
use idp_be.Exec.{ok, >>=-returns, >>=-goes_on, guard-goes_on, pure-eq-ok}
use idp_be.Schema.{User, text_type}
use idp_be.Verify.Service.{is_equal_code}
use idp_be.Platform.{Platform, World, UserWhere, Message}
use idp_be.Platform.Laws.{RedisLaws}
use idp_be.Redis.Laws.{cached, cached-del, del-eq-ok, read_or-goes_on}
use idp_be.Database.{query-goes_on, statement-eq-ok}
use idp_be.Random.{random_bytes}
use idp_be.Outbox.{send_email, handed_over-eq-ok}
use idp_be.Verify.Service.{phone_prefix}
use idp_be.User.Registration.{hash_lem}
use idp_be.User.Repository
use idp_be.User.Service.{verify_phone_number, change_password, issue_password}

module _ {Db Cache Response : Type 0} (P : Platform Db Cache Response) where
  -- The one write of an update of a user.
  abbrev pub Updates : String → (User → User) → World Db Cache → World Db Cache → Type 0
  Updates uuid change w w' =
      (row : User) × (P.prisma.users.update (UserWhere.by_uuid uuid) change w.db ≡ (ok row, w'.db))

  update_user-eq-ok :
      (uuid : String) (change : User → User) (w : World Db Cache) {u : Unit {0}}
      {w' : World Db Cache}
      → Repository.update_user P uuid change w ≡ (ok u, w')
      → Updates uuid change w w' × (w' ≡ record w { db = w'.db })
  unfolding Repository.update_user
  update_user-eq-ok uuid change w h = >>=-returns _ _ w h λ row w1 e1 h1.
      let (d, updated, same) = statement-eq-ok _ _ w e1 in
      let ended = (pure-eq-ok tt w1 h1).1 in
      (
        (row, updated ∙ (λ i. (ok row, ((sym same ∙ ended) i).db))),
        sym ended ∙ same ∙ (λ i. record w { db = ((sym same ∙ ended) i).db }),
      )

  -- A phone number that is verified was verified by a code that equals the live one stored for it:
  -- the user's row gets the number and the mark, and the code is used up.
  pub verify_phone_number-Updates :
      (L : RedisLaws P.redis) (uuid phone_number code : String) (w w' : World Db Cache)
      → verify_phone_number P uuid phone_number code w ≡ (ok tt, w')
      → (stored : String) × (cached P text_type phone_number phone_prefix w.now w ≡ some stored)
        × (is_equal_code P code stored ≡ true)
        × Updates uuid
            (λ u. record u { phone_number = phone_number; is_phone_number_verified = true })
            w
            w'
        × ((t : ℕ) → w.now ≤ t → cached P text_type phone_number phone_prefix t w' ≡ none)
  unfolding verify_phone_number Repository.update_phone_number
  verify_phone_number-Updates L uuid phone_number code w w' h =
      let (stored, live, h1) = read_or-goes_on P L text_type phone_number phone_prefix _ _ w h in
      let (equal, h2) = guard-goes_on _ _ _ w h1 in
      >>=-returns _ _ w h2 λ u w1 e1 h3.
        let ((row, updated), same) = update_user-eq-ok uuid _ w e1 in
        let (c, _, ended) = del-eq-ok P phone_number phone_prefix w1 h3 in
        let at1 : w1.now ≡ w.now = ap (λ (x : World Db Cache). x.now) same in
        (
          stored,
          live,
          not-eq-false _ equal,
          (row, updated ∙ (λ i. (ok row, (sym ended i).db))),
          λ t late.
              cached-del P L text_type phone_number phone_prefix w1 h3 t (omega (arith, late, at1)),
        )

  module _
      (hashes : (password : String) (drawn : ℕ)
        → P.crypto.bcrypt_compare password (P.crypto.bcrypt_hash password drawn) ≡ true) where
    -- Where bcrypt accepts the hashes that it makes: a change of password had the old password, and
    -- stores a hash that the new one matches.
    pub change_password-Updates :
        (password old_password : String) (user : User) (w w' : World Db Cache)
        → change_password P password old_password user w ≡ (ok tt, w')
        → (P.crypto.bcrypt_compare old_password user.password ≡ true)
          × ((hash : String) × (P.crypto.bcrypt_compare password hash ≡ true)
              × Updates user.uuid (λ u. record u { password = hash }) w w')
    unfolding change_password Repository.update_user_password
    change_password-Updates password old_password user w w' h =
        let (old, h1) = guard-goes_on _ _ _ w h in
        let h2 = >>=-goes_on _ _ w (hash_lem P password w) h1 in
        let (updated, _) = update_user-eq-ok user.uuid _ (record w { drawn = w.drawn + 1 }) h2 in
        (
          not-eq-false _ old,
          (P.crypto.bcrypt_hash password w.drawn, hashes password w.drawn, updated),
        )

    random_bytes_lem :
        (size : ℕ) (w : World Db Cache)
        → random_bytes P size w
          ≡ (ok (P.crypto.random_bytes w.drawn size), record w { drawn = w.drawn + 1 })
    unfolding random_bytes
    random_bytes_lem size w = refl

    -- Where bcrypt accepts the hashes that it makes: a password that was issued went out by mail to
    -- the given address, and a hash that it matches was stored for the user of that address.
    pub issue_password_mails :
        (email : String) (w w' : World Db Cache)
        → issue_password P email w ≡ (ok tt, w')
        → (user : User) × (password : String) × (hash : String)
          × (P.prisma.users.find_unique_or_throw (UserWhere.by_email email) w.db ≡ ok user)
          × (w'.sent
              ≡ Message.mail email "인포팀 계정 임시 비밀번호" (P.render_temporary_password password) ∷ w.sent)
          × (P.crypto.bcrypt_compare password hash ≡ true)
          × Updates user.uuid (λ u. record u { password = hash }) w w'
    unfolding issue_password Repository.find_user_by_email Repository.update_user_password
        send_email
    issue_password_mails email w w' h =
        let (user, found, h1) = query-goes_on _ _ _ w h in
        let h2 = >>=-goes_on _ _ w (random_bytes_lem 18 w) h1 in
        let password = P.crypto.base64 (P.crypto.random_bytes w.drawn 18) in
        let w1 = record w { drawn = w.drawn + 1 } in
        >>=-returns _ _ w1 h2 λ u w2 e2 h3.
          let posted = handed_over-eq-ok P _ _ _ w1 e2 in
          let h4 = >>=-goes_on _ _ w2 (hash_lem P password w2) h3 in
          let ((row, updated), still) =
            update_user-eq-ok user.uuid _ (record w2 { drawn = w2.drawn + 1 }) h4 in
          let hash = P.crypto.bcrypt_hash password w2.drawn in
          (
            user,
            password,
            hash,
            found,
            ap (λ (x : World Db Cache). x.sent) still ∙ ap (λ (x : World Db Cache). x.sent) posted,
            hashes password w2.drawn,
            (
              row,
              (λ i.
                    P.prisma.users.update (UserWhere.by_uuid user.uuid)
                      (λ u. record u { password = hash }) (sym posted i).db)
                  ∙ updated,
            ),
          )
