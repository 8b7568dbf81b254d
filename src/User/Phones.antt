-- ===== src/User/Phones.antt =====
-- A code by SMS, from `sendPhoneCode` (src/verify/verify.service.ts) to `verifyPhoneNumber`
-- (src/user/user.service.ts).
use idp_be.Prelude.{
  ℕ, ◌+◌, ◌*◌, ◌≤◌, String, ◌⋆◌, ◌≡◌, refl, sym, ap, ◌∙◌, some, none, ◌∷◌, arith, ltb, eq_iff,
  not-eq-false, if◌then◌else◌,
}
use idp_be.Exec.{ok, >>=-returns, >>=-goes_on, guard-goes_on, pure-eq-ok, throw}
use idp_be.Schema.{text_type}
use idp_be.Platform.{Platform, World, Message, PhoneResult}
use idp_be.Platform.Laws.{RedisLaws}
use idp_be.Redis.Laws.{cached, cached-set, set-eq-ok}
use idp_be.Outbox.{send_message, handed_over-eq-ok}
use idp_be.Verify.Service.{phone_prefix, verification_ttl, parsed_phone, send_phone_code}
use idp_be.Verify.Codes.{next_code, random_int_lem}

module _ {Db Cache Response : Type 0} (P : Platform Db Cache Response) where
  -- The SMS that carries a code.
  abbrev pub code_sms : (national code : String) → Message
  code_sms national code = Message.sms national ("인포팀 계정 인증코드: [" ⋆ (code ⋆ "] 공유하지 마십시오."))

  parsed_phone-eq-ok :
      (r : PhoneResult) (w : World Db Cache) {tel : String × String} {w' : World Db Cache}
      → parsed_phone P r w ≡ (ok tel, w')
      → (r ≡ PhoneResult.parsed tel.0 tel.1) × (w ≡ w')
  unfolding throw
  parsed_phone-eq-ok (PhoneResult.parsed country national) w h =
      let (same, still) = pure-eq-ok (country, national) w h in
      ((λ i. PhoneResult.parsed ((same i).0) ((same i).1)), still)
  parsed_phone-eq-ok PhoneResult.parse_error w h = cc
  parsed_phone-eq-ok PhoneResult.other_error w h = cc

  module _ (L : RedisLaws P.redis) where
    -- A code that was sent went out by SMS to a Korean number, which then holds it for three
    -- minutes exactly.
    pub send_phone_code_stores :
        (phone_number : String) (w w' : World Db Cache)
        → send_phone_code P phone_number w ≡ (ok tt, w')
        → (national : String) × (P.parse_phone phone_number ≡ PhoneResult.parsed "KR" national)
          × (w'.sent ≡ code_sms national (next_code P w) ∷ w.sent)
          × (w'.now ≡ w.now)
          × ((t : ℕ)
              → w.now ≤ t
              → cached P text_type phone_number phone_prefix t w'
                ≡ (if ltb t (w.now + verification_ttl * 1000) then some (next_code P w) else none))
    unfolding send_phone_code send_message
    send_phone_code_stores phone_number w w' h = >>=-returns _ _ w h λ tel w0 e0 h0.
        let (parsed, still) = parsed_phone-eq-ok (P.parse_phone phone_number) w e0 in
        let (korean, h1) = guard-goes_on _ _ _ w0 h0 in
        let h2 = >>=-goes_on _ _ w0 (random_int_lem P 1000000 w0) h1 in
        >>=-returns _ _ (record w0 { drawn = w0.drawn + 1 }) h2
          λ u w1 e1 h3.
            let posted = handed_over-eq-ok P _ _ _ (record w0 { drawn = w0.drawn + 1 }) e1 in
            let (c, _, same) = set-eq-ok P _ _ _ _ _ w1 h3 in
            let on_time : w1.now ≡ w.now =
              ap (λ (x : World Db Cache). x.now) posted
              ∙ ap (λ (x : World Db Cache). x.now) (sym still) in
            let code_is : next_code P w0 ≡ next_code P w = ap (next_code P) (sym still) in
            (
              tel.1,
              parsed
                  ∙ ap (λ c. PhoneResult.parsed c tel.1)
                      ((eq_iff tel.0 "KR").0 (not-eq-false _ korean)),
              ap (λ (x : World Db Cache). x.sent) same
                  ∙ ap (λ (x : World Db Cache). x.sent) posted
                  ∙ (λ i. code_sms tel.1 (code_is i) ∷ (sym still i).sent),
              ap (λ (x : World Db Cache). x.now) same ∙ on_time,
              λ t late.
                  cached-set P L text_type phone_number (next_code P w0) phone_prefix
                    verification_ttl w1 h3 refl t (omega (arith, late, on_time))
                  ∙ (λ i.
                      if ltb t (on_time i + verification_ttl * 1000)
                      then some (code_is i)
                      else none),
            )
