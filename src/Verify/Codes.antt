-- ===== src/Verify/Codes.antt =====
-- `sendEmailCode` and `validateCode` (src/verify/verify.service.ts): codes in time, used once.
use idp_be.Prelude.{
  not-eq-false, ℕ, ◌+◌, ◌*◌, ◌≤◌, ◌<◌, String, ◌≡◌, ◌≢◌, refl, sym, ap, ◌∙◌, true, Option, none,
  some, arith, ltb, if◌then◌else◌, ◌∷◌,
}
use idp_be.Exec.{ok, throw, >>=-returns, >>=-goes_on, guard-goes_on}
use idp_be.Schema.{text_type}
use idp_be.Verify.Service.{is_equal_code}
use idp_be.Platform.{Platform, World, Message, VerificationType, later}
use idp_be.Platform.Laws.{RedisLaws}
use idp_be.Redis
use idp_be.Redis.Laws.{cached, cached-set, cached-del, del-eq-ok, read_or-goes_on, set-eq-ok}
use idp_be.Random.{random_int}
use idp_be.Outbox.{send_email, handed_over-eq-ok}
use idp_be.Verify.Digits.{six_digits}
use idp_be.Verify.Service.{
  email_prefix, verification_ttl, code_entry, use_code, payload, sign_verification, validate_entry,
  validate_code, send_email_code,
}

module _ {Db Cache Response : Type 0} (P : Platform Db Cache Response) where
  -- The code that a key holds at a time.
  abbrev pub stored_code : (prefix key : String) → ℕ → World Db Cache → Option String
  stored_code prefix key t w = cached P text_type key prefix t w

  pub random_int_lem :
      (max : ℕ) (w : World Db Cache)
      → random_int P max w
        ≡ (ok (P.crypto.random_int w.drawn max), record w { drawn = w.drawn + 1 })
  unfolding random_int
  random_int_lem max w = refl

  -- The code that the next mail carries.
  abbrev pub next_code : World Db Cache → String
  next_code w = six_digits (P.crypto.random_int w.drawn 1000000)

  module _ (L : RedisLaws P.redis) where
    use_code-eq-ok :
        (prefix key code : String) (w w1 : World Db Cache) {u : Unit {0}}
        → use_code P prefix key code w ≡ (ok u, w1)
        → (stored : String) × (stored_code prefix key w.now w ≡ some stored)
          × (is_equal_code P code stored ≡ true)
          × (Redis.del P key prefix w ≡ (ok u, w1))
    unfolding use_code
    use_code-eq-ok prefix key code w w1 h =
        let (stored, live, h1) = read_or-goes_on P L text_type key prefix _ _ w h in
        let (equal, h2) = guard-goes_on _ _ _ w h1 in (stored, live, not-eq-false _ equal, h2)

    -- What a validation that returned has checked and done.
    pub record IsUsed (prefix key code : String) (hint : VerificationType) (w w' : World Db Cache)
        (jwt_token stored : String) : Type 0 where
      pub live : stored_code prefix key w.now w ≡ some stored
      pub equal : is_equal_code P code stored ≡ true
      pub signed : jwt_token ≡ P.jwt.sign_verification (payload P key hint) w.now
      pub on_time : w'.now ≡ w.now
      pub gone : (t : ℕ) → w.now ≤ t → stored_code prefix key t w' ≡ none

    validate_entry-IsUsed :
        (entry : Option (String × String)) (code : String) (hint : VerificationType)
        (w w' : World Db Cache) (jwt_token : String)
        → validate_entry P entry code hint w ≡ (ok jwt_token, w')
        → (prefix : String) × (key : String) × (stored : String) × (entry ≡ some (prefix, key))
          × IsUsed prefix key code hint w w' jwt_token stored
    unfolding validate_entry sign_verification throw
    validate_entry-IsUsed none code hint w w' jwt_token h = cc
    validate_entry-IsUsed (some (prefix, key)) code hint w w' jwt_token h =
        >>=-returns _ _ w h λ u w1 e1 h1.
          let (stored, live, equal, deleted) = use_code-eq-ok prefix key code w w1 e1 in
          let (c, _, same) = del-eq-ok P key prefix w deleted in
          let ended : w1 ≡ w' = cc h1 in
          let on_time : w1.now ≡ w.now = ap (λ (x : World Db Cache). x.now) same in
          let answered : P.jwt.sign_verification (payload P key hint) w1.now ≡ jwt_token = cc h1 in
          (
            prefix,
            key,
            stored,
            refl,
            record {
              live = live;
              equal = equal;
              signed = sym answered ∙ ap (P.jwt.sign_verification (payload P key hint)) on_time;
              on_time = ap (λ (x : World Db Cache). x.now) (sym ended) ∙ on_time;
              gone = λ t late.
                  ap (stored_code prefix key t) (sym ended)
                  ∙ cached-del P L text_type key prefix w deleted t late;
            },
          )

    -- A validation that returns has compared the given code with a live one of the subject, has
    -- signed a token for exactly that subject and hint, and has used the code up.
    pub validate_code-IsUsed :
        (subject code : String) (hint : VerificationType) (w w' : World Db Cache)
        (jwt_token : String)
        → validate_code P subject code hint w ≡ (ok jwt_token, w')
        → (prefix : String) × (key : String) × (stored : String) × (code_entry P hint subject
            ≡ some (prefix, key))
          × IsUsed prefix key code hint w w' jwt_token stored
    unfolding validate_code
    validate_code-IsUsed subject code hint w w' jwt_token h =
        validate_entry-IsUsed (code_entry P hint subject) code hint w w' jwt_token h

    -- A code is validated once: after a validation no other for the same subject and hint returns,
    -- whatever code it gives, at once or after any time in which nothing else happens.
    pub validate_code-validate_code :
        (subject code : String) (hint : VerificationType) (w w1 : World Db Cache)
        (jwt_token : String)
        → validate_code P subject code hint w ≡ (ok jwt_token, w1)
        → (code' : String) (ms : ℕ) (w2 : World Db Cache) (jwt_token' : String)
        → validate_code P subject code' hint (later ms w1) ≢ (ok jwt_token', w2)
    validate_code-validate_code subject code hint w w1 jwt_token h code' ms w2 jwt_token' h' =
        let (prefix, key, stored, named, first) =
          validate_code-IsUsed subject code hint w w1 jwt_token h in
        let (prefix', key', stored', named', second) =
          validate_code-IsUsed subject code' hint (later ms w1) w2 jwt_token' h' in
        let same_prefix : prefix ≡ prefix' = cc (named, named') in
        let same_key : key ≡ key' = cc (named, named') in
        cc (
          sym (first.gone (w1.now + ms) (omega (arith, first.on_time)))
          ∙ (λ i. stored_code (same_prefix i) (same_key i) (w1.now + ms) (later ms w1))
          ∙ second.live)

    -- Where a code was sent by mail, the address then holds that code for three minutes exactly,
    -- and the mail that went out carries it.
    pub send_email_code_stores :
        (email : String) (w w' : World Db Cache)
        → send_email_code P email w ≡ (ok tt, w')
        → (w'.sent ≡ Message.mail email "인포팀 계정 인증 코드" (P.render_code (next_code w)) ∷ w.sent)
          × (w'.now ≡ w.now)
          × ((t : ℕ)
              → w.now ≤ t
              → cached P text_type email email_prefix t w'
                ≡ (if ltb t (w.now + verification_ttl * 1000) then some (next_code w) else none))
    unfolding send_email_code send_email
    send_email_code_stores email w w' h =
        let h1 = >>=-goes_on _ _ w (random_int_lem 1000000 w) h in
        >>=-returns _ _ (record w { drawn = w.drawn + 1 }) h1
          λ u w1 e1 h2.
            let posted = handed_over-eq-ok P _ _ _ (record w { drawn = w.drawn + 1 }) e1 in
            let (c, _, same) = set-eq-ok P _ _ _ _ _ w1 h2 in
            let on_time = ap (λ (x : World Db Cache). x.now) posted in
            (
              ap (λ (x : World Db Cache). x.sent) same ∙ ap (λ (x : World Db Cache). x.sent) posted,
              ap (λ (x : World Db Cache). x.now) same ∙ on_time,
              λ t late.
                  cached-set P L text_type email (next_code w) email_prefix verification_ttl w1 h2
                    refl t (omega (arith, late, on_time))
                  ∙ ap
                      (λ n.
                        if ltb t (n + verification_ttl * 1000) then some (next_code w) else none)
                      on_time,
            )

    pub live_in_time :
        (a b : ℕ) (e e' : String)
        → (if ltb a b then some e else none) ≡ some e'
        → (a < b) × (e ≡ e')
    live_in_time a b e e' h = ground arith

    -- After a code was sent to a mail address in lower case, with only time in between, the
    -- address is verified only within three minutes, and only by a code that equals the one that
    -- the mail carries; the token that is signed names that address.
    pub send_email_code-validate_code :
        (email code : String) (w w1 w2 : World Db Cache) (ms : ℕ) (jwt_token : String)
        → P.lower_case email ≡ email
        → send_email_code P email w ≡ (ok tt, w1)
        → validate_code P email code VerificationType.email (later ms w1) ≡ (ok jwt_token, w2)
        → (ms < verification_ttl * 1000)
          × (is_equal_code P code (next_code w) ≡ true)
          × (jwt_token
              ≡ P.jwt.sign_verification (payload P email VerificationType.email) (w.now + ms))
    send_email_code-validate_code email code w w1 w2 ms jwt_token lower h h' =
        let (_, on_time, stores) = send_email_code_stores email w w1 h in
        let (prefix, key, stored, named, used) =
          validate_code-IsUsed email code VerificationType.email (later ms w1) w2 jwt_token h' in
        let same_prefix : prefix ≡ email_prefix = cc named in
        let same_key : key ≡ email = cc (named, lower) in
        let (in_time, same) = live_in_time _ _ (next_code w) stored (
          sym (stores (w1.now + ms) (omega (arith, on_time)))
          ∙ sym (λ i. stored_code (same_prefix i) (same_key i) (w1.now + ms) (later ms w1))
          ∙ used.live) in
        (
          omega (arith, on_time, in_time),
          ap (is_equal_code P code) same ∙ used.equal,
          used.signed ∙ (λ i.
              P.jwt.sign_verification (payload P (same_key i) VerificationType.email)
                (on_time i + ms)),
        )
