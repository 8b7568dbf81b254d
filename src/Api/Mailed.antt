-- ===== src/Api/Mailed.antt =====
-- A code that was mailed verifies its address, over HTTP.
use idp_be.Prelude.{
  ℕ, ◌+◌, ◌*◌, ◌<◌, String, ◌≡◌, refl, sym, ap, subst, ◌∙◌, Bool, true, false, not, some, none,
  arith, ltb, inl, inr, Bool-cases, ◌==◌, eq_iff, if◌then◌else◌,
}
use Prim.Native.String.{count}
use idp_be.Exec.{
  ok, Result, Exception, err, throw_if, ok->>=, ◌>>◌, ok-catch, >>=-returns, answer-eq-ok,
}
use idp_be.Schema.{text_type}
use idp_be.Verify.Service.{is_equal_code}
use idp_be.Platform.{Platform, World, VerificationType, later}
use idp_be.Platform.Laws.{RedisLaws}
use idp_be.Redis.Answers.{RedisAnswers, get_or_throw-answers, del-answers}
use idp_be.Redis.Laws.{cached}
use idp_be.Verify.Digits.{six_digits}
use idp_be.Verify.Digits.Values.{six_digits_long}
use idp_be.Verify.Service as VerifyService
use idp_be.Verify.Service.{email_prefix, verification_ttl, payload, use_code, sign_verification}
use idp_be.Verify.Codes.{next_code, send_email_code_stores}
use idp_be.Api.Bodies.{email_of, send_email_code}
use idp_be.Api.UserController
use idp_be.Api.UserController.{verify, send_email_certification_code}

-- Six digits are a text that is not empty.
six_digits-full : (n : ℕ) → n < 1000000 → not (six_digits n == "") ≡ true
six_digits-full n h = elim (Bool-cases (six_digits n == "")) [
  | inl blank ↦
      absurd (omega (arith, ap count ((eq_iff (six_digits n) "").0 blank), six_digits_long n h))
  | inr full ↦ ap not full
]

stored_in_time : (a b : ℕ) (s : String) → a < b → (if ltb a b then some s else none) ≡ some s
stored_in_time a b s h = ground arith

email_of_choice :
    (b : Bool) (s address : String) (e : Exception)
    → ◌≡◌ {A = Result Exception String} (if b then ok s else err e) (ok address)
    → address ≡ s
email_of_choice true s address e h = cc
email_of_choice false s address e h = cc

module _ {Db Cache Response : Type 0} (P : Platform Db Cache Response) where
  email_of-eq-ok :
      (raw address : String) → email_of P (some raw) ≡ ok address → address ≡ P.lower_case raw
  unfolding email_of
  email_of-eq-ok raw address h = email_of_choice _ (P.lower_case raw) address _ h

  module _ (L : RedisLaws P.redis) (A : RedisAnswers P.redis) where
    use_code-answers :
        (prefix subject code stored : String) (w : World Db Cache)
        → cached P text_type subject prefix w.now w ≡ some stored
        → not (stored == "") ≡ true
        → is_equal_code P code stored ≡ true
        → (w' : World Db Cache) × (use_code P prefix subject code w ≡ (ok tt, w'))
          × (w'.now ≡ w.now)
    unfolding use_code throw_if
    use_code-answers prefix subject code stored w live full equal =
        let (c, deleted) = del-answers P A subject prefix w in
        (
          record w { cache = c },
          ok->>= _ _ w (
                ok-catch _ _ w
                  (get_or_throw-answers P A text_type subject prefix w stored full live))
              ∙ ok->>= _ _ w {a = tt} {t = w} (rw equal)
              ∙ deleted,
          refl,
        )

    -- After an answered request for a code, where Redis answers and the draw is below a million as
    -- it was asked for, the address is verified within three minutes by whoever has the code of
    -- the mail, in whatever case the address is written then, with only time in between.
    pub mailed_code_verifies :
        (raw subject code : String) (w w1 : World Db Cache) (ms : ℕ)
        → send_email_code P (some raw) w ≡ (ok tt, w1)
        → P.crypto.random_int w.drawn 1000000 < 1000000
        → P.lower_case subject ≡ P.lower_case raw
        → is_equal_code P code (next_code P w) ≡ true
        → ms < verification_ttl * 1000
        → (w2 : World Db Cache) × (verify P subject code VerificationType.email (later ms w1) ≡ (
          ok (
              P.jwt.sign_verification
                (payload P (P.lower_case raw) VerificationType.email)
                (w.now + ms)),
          w2,
        ))
    unfolding send_email_code UserController.send_email_certification_code verify
        VerifyService.validate_code VerifyService.validate_entry sign_verification
    mailed_code_verifies raw subject code w w1 ms h drawn same_address equal in_time =
        >>=-returns _ _ w h λ address v e h1.
          let (valid, same) = answer-eq-ok _ _ w e in
          let address_is = email_of-eq-ok raw address valid in
          let (_, same_time, stores) = send_email_code_stores P L (P.lower_case raw) w w1 (
            subst
              (λ (q : String × World Db Cache).
                send_email_certification_code P q.0 q.1 ≡ (ok tt, w1))
              (λ i. (address_is i, sym same i)) h1) in
          let (w2, used, on_time) =
            use_code-answers email_prefix (P.lower_case raw) code (next_code P w) (later ms w1)
              (stores (w1.now + ms) (omega (arith, same_time))
                ∙ stored_in_time (w1.now + ms) (w.now + verification_ttl * 1000) (next_code P w)
                    (omega (arith, same_time, in_time)))
              (six_digits-full _ drawn) equal in
          (
            w2,
            ap
                  (λ s.
                    (use_code P email_prefix s code >> sign_verification P s VerificationType.email)
                      (later ms w1))
                  same_address
                ∙ ok->>= _ _ (later ms w1) used
                ∙ ap
                    (λ t. (
                      ok (
                          P.jwt.sign_verification
                            (payload P (P.lower_case raw) VerificationType.email) t),
                      w2,
                    ))
                    (on_time ∙ ap (λ n. n + ms) same_time),
          )
