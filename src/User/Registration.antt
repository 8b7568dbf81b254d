-- ===== src/User/Registration.antt =====
-- `register` (src/user/user.service.ts): whose data a new user has proved.
use idp_be.Prelude.{
  not-eq-false, ℕ, ◌+◌, String, ◌≡◌, refl, sym, ◌∙◌, subst, Bool, true, false, Option, some, ◌==◌,
  eq_iff,
}
use idp_be.Exec.{
  ok, pure, throw, when, >>=-returns, guard-goes_on, throw_if-eq-ok, require_text-goes_on,
  pure-eq-ok, answer-eq-ok, >>=-goes_on,
}
use idp_be.Schema.{User}
use idp_be.Platform.{Platform, World, VerificationType, VerificationPayload, PhoneResult}
use idp_be.Database.{statement-eq-ok}
use idp_be.Random.{hash_password}
use idp_be.Verify.Service.{validate_jwt_token, parsed_phone}
use idp_be.User.Repository
use idp_be.User.Repository.{NewUser, user_row}
use idp_be.User.Service.{
  Registration, is_student_email, same_hint, check_verification, require_verification, register,
}

same_hint-eq : (a b : VerificationType) → same_hint a b ≡ true → a ≡ b
same_hint-eq VerificationType.email VerificationType.email h = refl
same_hint-eq VerificationType.email VerificationType.phone_number h = cc
same_hint-eq VerificationType.email VerificationType.student_id h = cc
same_hint-eq VerificationType.phone_number VerificationType.email h = cc
same_hint-eq VerificationType.phone_number VerificationType.phone_number h = refl
same_hint-eq VerificationType.phone_number VerificationType.student_id h = cc
same_hint-eq VerificationType.student_id VerificationType.email h = cc
same_hint-eq VerificationType.student_id VerificationType.phone_number h = cc
same_hint-eq VerificationType.student_id VerificationType.student_id h = refl

module _ {Db Cache Response : Type 0} (P : Platform Db Cache Response) where
  -- At a time, a token proves that a value of a kind was verified.
  abbrev pub Proves : (token : String) → VerificationType → (subject : String) → ℕ → Type 0
  Proves token hint subject now =
      (p : VerificationPayload) × (P.jwt.verify token P.config.jwt_issuer now ≡ ok p)
      × (p.hint ≡ hint)
      × (p.sub ≡ subject)

  abbrev pub IsProved : Option String → VerificationType → (subject : String) → ℕ → Type 0
  IsProved given hint subject now =
      (token : String) × (given ≡ some token) × Proves token hint subject now

  check_verification-eq-ok :
      (token : String) (hint : VerificationType) (subject message : String) (w : World Db Cache)
      {u : Unit {0}} {w' : World Db Cache}
      → check_verification P token hint subject message w ≡ (ok u, w')
      → Proves token hint subject w.now × (w ≡ w')
  unfolding check_verification validate_jwt_token
  check_verification-eq-ok token hint subject message w {w' = w'} h =
      >>=-returns _ _ w h λ p w1 e1 h1.
        let (valid, same) = answer-eq-ok _ (P.jwt.verify token P.config.jwt_issuer w.now) w e1 in
        let (hinted, h2) = guard-goes_on _ _ _ w1 h1 in
        let (named, still) = throw_if-eq-ok _ _ w1 h2 in
        (
          (
            p,
            valid,
            same_hint-eq p.hint hint (not-eq-false _ hinted),
            (eq_iff p.sub subject).0 (not-eq-false _ named),
          ),
          same ∙ still,
        )

  require_verification-eq-ok :
      (given : Option String) (missing : String) (hint : VerificationType)
      (subject message : String) (w : World Db Cache) {u : Unit {0}} {w' : World Db Cache}
      → require_verification P given missing hint subject message w ≡ (ok u, w')
      → IsProved given hint subject w.now × (w ≡ w')
  unfolding require_verification
  require_verification-eq-ok given missing hint subject message w h =
      let (token, there, h1) = require_text-goes_on _ _ _ w h in
      let (proved, same) = check_verification-eq-ok token hint subject message w h1 in
      ((token, there, proved), same)

  -- A check under a test.
  when_verified :
      (b : Bool) (given : Option String) (missing : String) (hint : VerificationType)
      (subject message : String) (w : World Db Cache) {u : Unit {0}} {w' : World Db Cache}
      → when b (require_verification P given missing hint subject message) w ≡ (ok u, w')
      → (b ≡ true → IsProved given hint subject w.now) × (w ≡ w')
  when_verified true given missing hint subject message w h =
      let (proved, same) = require_verification-eq-ok given missing hint subject message w h in
      (λ _. proved, same)
  when_verified false given missing hint subject message w h = (λ e. cc, cc)

  parsed_phone-eq-ok :
      (r : PhoneResult) (w : World Db Cache) {tel : String × String} {w' : World Db Cache}
      → parsed_phone P r w ≡ (ok tel, w')
      → (r ≡ PhoneResult.parsed tel.0 tel.1) × (w ≡ w')
  unfolding throw pure
  parsed_phone-eq-ok (PhoneResult.parsed country national) w h = (cc, cc)
  parsed_phone-eq-ok PhoneResult.parse_error w h = cc
  parsed_phone-eq-ok PhoneResult.other_error w h = cc

  pub hash_lem :
      (password : String) (w : World Db Cache)
      → hash_password P password w
        ≡ (ok (P.crypto.bcrypt_hash password w.drawn), record w { drawn = w.drawn + 1 })
  unfolding hash_password
  hash_lem password w = refl

  -- The new user that a registration describes, with the hash of the password.
  abbrev pub new_user : Registration → (hash country : String) → NewUser
  new_user r hash country = record {
    email = r.email;
    password = hash;
    name = r.name;
    student_id = r.student_id;
    phone_number = r.phone_number;
    is_phone_number_verified = country == "KR";
  }

  -- What a registration that returned has checked, and the one row that it creates.
  pub record IsRegistered (r : Registration) (w w' : World Db Cache) (country national : String)
      : Type 0 where
    pub email : Proves r.email_jwt VerificationType.email r.email w.now
    pub student :
        is_student_email r.email ≡ true
        → IsProved r.student_id_jwt VerificationType.student_id r.student_id w.now
    pub phone_parsed : P.parse_phone r.phone_number ≡ PhoneResult.parsed country national
    pub phone :
        (country == "KR") ≡ true
        → IsProved r.phone_number_jwt VerificationType.phone_number r.phone_number w.now
    pub row : User
    pub created :
        P.prisma.users.create
          (user_row (new_user r (P.crypto.bcrypt_hash r.password w.drawn) country))
          w.db
        ≡ (ok row, w'.db)

  -- A registration that returns had a token that proves the email; for a student's email one that
  -- proves the student id, for a Korean number one that proves the number; it then created one user
  -- with the registered data and the hash of the password, whose number counts as verified exactly
  -- where it is Korean.
  pub register-IsRegistered :
      (r : Registration) (w w' : World Db Cache)
      → register P r w ≡ (ok tt, w')
      → (country : String) × (national : String) × IsRegistered r w w' country national
  unfolding register Repository.create_user
  register-IsRegistered r w w' h = >>=-returns _ _ w h λ u1 w1 e1 h1.
      let (email, same1) = check_verification-eq-ok r.email_jwt _ r.email _ w e1 in
      >>=-returns _ _ w1 h1 λ u2 w2 e2 h2.
        let (student, same2) = when_verified _ _ _ _ _ _ w1 e2 in
        >>=-returns _ _ w2 h2 λ tel w3 e3 h3.
          let (parsed, same3) = parsed_phone-eq-ok _ w2 e3 in
          >>=-returns _ _ w3 h3 λ u4 w4 e4 h4.
            let (phone, same4) = when_verified _ _ _ _ _ _ w3 e4 in
            let h5 = >>=-goes_on _ _ w4 (hash_lem r.password w4) h4 in
            >>=-returns _ _ (record w4 { drawn = w4.drawn + 1 }) h5
              λ row w6 e6 h6.
                let (d, created, same6) =
                  statement-eq-ok _ _ (record w4 { drawn = w4.drawn + 1 }) e6 in
                let ended = (pure-eq-ok tt w6 h6).1 in
                let to3 = same1 ∙ same2 ∙ same3 in
                let to4 = to3 ∙ same4 in
                (
                  tel.0,
                  tel.1,
                  record {
                    email = email;
                    student = λ e.
                        subst
                          (λ (x : World Db Cache).
                            IsProved r.student_id_jwt VerificationType.student_id r.student_id
                              x.now)
                          (sym same1) (student e);
                    phone_parsed = parsed;
                    phone = λ e.
                        subst
                          (λ (x : World Db Cache).
                            IsProved r.phone_number_jwt VerificationType.phone_number r.phone_number
                              x.now)
                          (sym to3) (phone e);
                    row = row;
                    created =
                        (λ i.
                          P.prisma.users.create
                            (user_row
                              (new_user r (P.crypto.bcrypt_hash r.password (to4 i).drawn) tel.0))
                            (to4 i).db)
                        ∙ created
                        ∙ (λ i. (ok row, ((sym same6 ∙ ended) i).db));
                  },
                )
