-- ===== src/Auth/PasskeyLogin.antt =====
-- `verifyAuthentication` (src/auth/auth.service.ts): a login by passkey.
use idp_be.Prelude.{
  ℕ, ◌+◌, ◌*◌, ◌≤◌, String, ◌≡◌, sym, ap, ◌∙◌, Option, none, some, arith, ltb, if◌then◌else◌,
}
use idp_be.Exec.{
  ok, unauthorized, library, >>=-returns, guard-goes_on, answer-eq-ok, or_throw-eq-ok,
}
use idp_be.Schema.{Authenticator, text_type}
use idp_be.Platform.{Platform, World, AuthenticatorWhere}
use idp_be.Platform.Laws.{RedisLaws}
use idp_be.Redis.Keys.{cache_key-ne_of_head}
use idp_be.Redis.Laws.{cached, cached-del, del-eq-ok, read-goes_on}
use idp_be.Database.{query-goes_on, statement-eq-ok}
use idp_be.Auth.Repository
use idp_be.Auth.Service.{
  LoginResult, refresh_token_expire_time, passkey_prefix, verify_response, verify_authentication,
}
use idp_be.Auth.Sessions.{session, issue_tokens-IsOpened, issue_tokens-keeps}

module _ {Db Cache Response : Type 0} (P : Platform Db Cache Response) where
  -- The challenge that a key holds at a time.
  abbrev pub challenge_of : String → ℕ → World Db Cache → Option String
  challenge_of key t w = cached P text_type key passkey_prefix t w

  verify_response-eq-ok :
      (response : Response) (challenge : String) (a : Authenticator) (w : World Db Cache) {n : ℕ}
      {w' : World Db Cache}
      → verify_response P response challenge a w ≡ (ok n, w')
      → (P.web_authn.verify_authentication response challenge P.config.passkey_rp_origin
            P.config.passkey_rp_id a
          ≡ ok (some n))
        × (w ≡ w')
  unfolding verify_response
  verify_response-eq-ok response challenge a w h = >>=-returns _ _ w h λ o w1 e1 h1.
      let (said, same) = answer-eq-ok library _ w e1 in
      let (full, still) = or_throw-eq-ok o (unauthorized "") w1 h1 in
      (said ∙ ap ok full, same ∙ still)

  -- What a login by passkey has checked, and what it leaves.
  pub record IsPasskeyLogin (key : String) (response : Response) (w w' : World Db Cache)
      (res : LoginResult) (challenge : String) (a : Authenticator) (counter : ℕ) : Type 0 where
    pub live : challenge_of key w.now w ≡ some challenge
    pub registered :
        P.prisma.authenticators.find_unique_or_throw
          (AuthenticatorWhere.by_id (P.web_authn.response_id response))
          w.db
        ≡ ok a
    pub verified :
        P.web_authn.verify_authentication response challenge P.config.passkey_rp_origin
          P.config.passkey_rp_id a
        ≡ ok (some counter)
    pub row : Authenticator
    pub counted :
        P.prisma.authenticators.update
          (AuthenticatorWhere.by_id a.id)
          (λ x. record x { counter = counter; login_at = some w.now })
          w.db
        ≡ (ok row, w'.db)
    pub access : res.access_token ≡ P.jwt.sign_subject a.user_uuid w.now
    pub opened :
        (t : ℕ)
        → w.now ≤ t
        → session P res.refresh_token t w'
          ≡ (if ltb t (w.now + refresh_token_expire_time P * 1000) then some a.user_uuid else none)
    pub gone : (t : ℕ) → w.now ≤ t → challenge_of key t w' ≡ none

  -- A login by passkey that returns was given a live challenge and a response that the library
  -- verified against it, with the passkey of the response's id; in the state that it leaves the
  -- passkey's counter was moved to the verified one, the session is that of the passkey's user, and the challenge is used up.
  pub verify_authentication-IsPasskeyLogin :
      (L : RedisLaws P.redis) (key : String) (response : Response) (w w' : World Db Cache)
      (res : LoginResult)
      → verify_authentication P key response w ≡ (ok res, w')
      → (challenge : String) × (a : Authenticator) × (counter : ℕ) × IsPasskeyLogin key response w
          w' res challenge a counter
  unfolding verify_authentication Repository.find_authenticator Repository.update_passkey_counter
  verify_authentication-IsPasskeyLogin L key response w w' res h =
      let (challenge, live, h1) = read-goes_on P L text_type key passkey_prefix _ w h in
      let (_, h2) = guard-goes_on _ _ _ w h1 in
      >>=-returns _ _ w h2 λ u w1 e1 h3.
        let (c, _, same1) = del-eq-ok P key passkey_prefix w e1 in
        let (a, found, h4) = query-goes_on _ _ _ w1 h3 in
        >>=-returns _ _ w1 h4 λ n w2 e2 h5.
          let (verified, same2) = verify_response-eq-ok response challenge a w1 e2 in
          >>=-returns _ _ w2 h5 λ row w3 e3 h6.
            let (d, counted, same3) = statement-eq-ok _ _ w2 e3 in
            let opened = issue_tokens-IsOpened P L a.user_uuid w3 w' h6 in
            let db1 : w1.db ≡ w.db = ap (λ (x : World Db Cache). x.db) same1 in
            let at1 : w1.now ≡ w.now = ap (λ (x : World Db Cache). x.now) same1 in
            let at2 : w2.now ≡ w.now = ap (λ (x : World Db Cache). x.now) (sym same2) ∙ at1 in
            let at3 : w3.now ≡ w.now = ap (λ (x : World Db Cache). x.now) same3 ∙ at2 in
            let db2 : w2.db ≡ w.db = ap (λ (x : World Db Cache). x.db) (sym same2) ∙ db1 in
            (
              challenge,
              a,
              n,
              record {
                live = live;
                registered =
                    ap
                      (P.prisma.authenticators.find_unique_or_throw
                        (AuthenticatorWhere.by_id (P.web_authn.response_id response)))
                      (sym db1)
                    ∙ found;
                verified = verified;
                row = row;
                counted =
                    (λ i.
                      P.prisma.authenticators.update (AuthenticatorWhere.by_id a.id)
                        (λ x. record x { counter = n; login_at = some (sym at2 i) }) (sym db2 i))
                    ∙ counted
                    ∙ (λ i. (
                      ok row,
                      (ap (λ (x : World Db Cache). x.db) (sym same3) ∙ sym opened.same_db) i,
                    ));
                access = opened.access ∙ ap (P.jwt.sign_subject a.user_uuid) at3;
                opened = λ t late.
                    opened.opened t (omega (arith, late, at3))
                    ∙ ap
                        (λ m.
                          if ltb t (m + refresh_token_expire_time P * 1000)
                          then some a.user_uuid
                          else none)
                        at3;
                gone = λ t late.
                    issue_tokens-keeps P L a.user_uuid w3 w' text_type key passkey_prefix
                      (cache_key-ne_of_head _ _ _ _ _ _ (omega arith)) t h6
                    ∙ ap (challenge_of key t) same3
                    ∙ ap (challenge_of key t) (sym same2)
                    ∙ cached-del P L text_type key passkey_prefix w e1 t late;
              },
            )
