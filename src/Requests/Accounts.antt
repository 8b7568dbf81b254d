-- ===== src/Requests/Accounts.antt =====
-- The operations of src/auth, src/verify and src/user that use the cache bring nothing
-- to the key of a token.
use idp_be.Prelude.{ℕ, String, Option, none, some}
use idp_be.Exec.{Exec, ok, ◌>>=◌, ◌>>◌}
use idp_be.Exec.Keeps.{Keeps, Keeps-bind, Keeps-pure}
use idp_be.Schema.{CachedValue, Authenticator, user_ref_type, text_type}
use idp_be.Platform.{Platform, World, VerificationType}
use idp_be.Platform.Laws.{RedisLaws}
use idp_be.Redis
use idp_be.Redis.{cache_key}
use idp_be.Redis.Keeps.{Keeps-get_or_throw}
use idp_be.Database.Keeps.{CacheOnly, Keeps-query, Keeps-statement, Keeps-random_uuid, steps_rules}
use idp_be.Outbox.Keeps.{outbox_rules}
use idp_be.Verify.Service as VerifyService
use idp_be.Verify.Service.{email_prefix, phone_prefix}
use idp_be.User.Repository as UserRepository
use idp_be.User.Service as UserService
use idp_be.User.Service.{passkey_register_prefix}
use idp_be.User.Frame.{Keeps-parsed_phone, Keeps-get_student_id}
use idp_be.Auth.Repository as AuthRepository
use idp_be.Auth.Service as AuthService
use idp_be.Auth.Service.{
  passkey_prefix, detached, refresh_token_prefix, refresh_token_expire_time, login_result,
}
use idp_be.Requests.Frame.{
  IsTokenKey, IsOnly, IsOnly-CacheOnly, Keeps-with_session, Keeps-set, Keeps-del,
}

module _ {Db Cache Response : Type 0} (P : Platform Db Cache Response) where
  Keeps-detached :
      {Q : World Db Cache → Type 0} (m : Exec (World Db Cache) (Unit {0}))
      → Keeps Q m
      → Keeps Q (detached P m)
  unfolding detached
  Keeps-detached m k = record { after = λ w h. k.after w h }

  module _ (L : RedisLaws P.redis) (allowed : ℕ → CachedValue → Type 0) (full : String)
      (key : IsTokenKey full) where
    c : CacheOnly (IsOnly P allowed full)
    c = IsOnly-CacheOnly P allowed full

    Keeps-set_passkey :
        (k v : String) (ttl : ℕ)
        → Keeps (IsOnly P allowed full) (Redis.set P text_type k v passkey_prefix ttl)
    Keeps-set_passkey k v ttl = Keeps-set P L allowed full _ k v _ ttl (key.no_passkey k)

    Keeps-set_registration :
        (k v : String) (ttl : ℕ)
        → Keeps (IsOnly P allowed full) (Redis.set P text_type k v passkey_register_prefix ttl)
    Keeps-set_registration k v ttl = Keeps-set P L allowed full _ k v _ ttl (key.no_registration k)

    Keeps-set_email :
        (k v : String) (ttl : ℕ)
        → Keeps (IsOnly P allowed full) (Redis.set P text_type k v email_prefix ttl)
    Keeps-set_email k v ttl = Keeps-set P L allowed full _ k v _ ttl (key.no_email k)

    Keeps-set_phone :
        (k v : String) (ttl : ℕ)
        → Keeps (IsOnly P allowed full) (Redis.set P text_type k v phone_prefix ttl)
    Keeps-set_phone k v ttl = Keeps-set P L allowed full _ k v _ ttl (key.no_phone k)

    pub Keeps-find_session_user :
        (uuid : String) → Keeps (IsOnly P allowed full) (AuthService.find_user_by_uuid P uuid)
    unfolding AuthService.find_user_by_uuid AuthRepository.find_user_by_uuid
    Keeps-find_session_user uuid = search steps_rules

    Keeps-issue_tokens :
        (uuid : String) → Keeps (IsOnly P allowed full) (AuthService.issue_tokens P uuid)
    unfolding AuthService.issue_tokens
    Keeps-issue_tokens uuid = Keeps-with_session P allowed full _ (λ token ne.
        Keeps-bind _ _ (Keeps-set P L allowed full _ token uuid _ _ ne)
          (λ _. record { after = λ w h. h }))

    pub Keeps-login :
        (email password : String)
        → Keeps (IsOnly P allowed full) (AuthService.login P email password)
    unfolding AuthService.login AuthRepository.find_user_by_email
    Keeps-login email password = search (steps_rules, Keeps-issue_tokens)

    pub Keeps-logout : (token : String) → Keeps (IsOnly P allowed full) (AuthService.logout P token)
    unfolding AuthService.logout
    Keeps-logout token = Keeps-del P L allowed full token refresh_token_prefix

    pub Keeps-renew :
        (uuid row_uuid : String)
        → Keeps (IsOnly P allowed full) (
            AuthService.generate_opaque_token P >>= λ token.
            detached P (
              Redis.set P user_ref_type token uuid refresh_token_prefix
                (refresh_token_expire_time P))
            >> (λ w. (ok (login_result P row_uuid token w.now), w)))
    Keeps-renew uuid row_uuid = Keeps-with_session P allowed full _ (λ token ne.
        Keeps-bind _ _ (Keeps-detached _ (Keeps-set P L allowed full _ token uuid _ _ ne))
          (λ _. record { after = λ w h. h }))

    pub Keeps-refresh :
        (token : String) → Keeps (IsOnly P allowed full) (AuthService.refresh P token)
    unfolding AuthService.refresh AuthRepository.find_user_by_uuid
    Keeps-refresh token =
        search (steps_rules, Keeps-get_or_throw, Keeps-del P L allowed full, Keeps-renew) depth 12

    pub Keeps-authenticate_options :
        Keeps (IsOnly P allowed full) (AuthService.authenticate_options P)
    unfolding AuthService.authenticate_options
    Keeps-authenticate_options =
        Keeps-bind _ _ (record { after = λ w h. c.on_draw w h })
          (λ challenge.
            Keeps-bind _ _ (Keeps-random_uuid P c)
              (λ k. Keeps-bind _ _ (Keeps-set_passkey k challenge _) (λ _. Keeps-pure _)))

    Keeps-verify_response :
        (response : Response) (challenge : String) (a : Authenticator)
        → Keeps (IsOnly P allowed full) (AuthService.verify_response P response challenge a)
    unfolding AuthService.verify_response
    Keeps-verify_response response challenge a = search steps_rules

    Keeps-update_counter :
        (id : String) (counter : ℕ)
        → Keeps (IsOnly P allowed full) (AuthRepository.update_passkey_counter P id counter)
    unfolding AuthRepository.update_passkey_counter
    Keeps-update_counter id counter = record { after = λ w h. (Keeps-statement _ _ c).after w h }

    pub Keeps-verify_authentication :
        (challenge_key : String) (response : Response)
        → Keeps (IsOnly P allowed full) (AuthService.verify_authentication P challenge_key response)
    unfolding AuthService.verify_authentication AuthRepository.find_authenticator
    Keeps-verify_authentication challenge_key response =
        search
          (
            steps_rules,
            Keeps-get_or_throw,
            Keeps-del P L allowed full,
            Keeps-verify_response,
            Keeps-update_counter,
            Keeps-issue_tokens,
          )
          depth 12

    pub Keeps-send_email_code :
        (email : String) → Keeps (IsOnly P allowed full) (VerifyService.send_email_code P email)
    unfolding VerifyService.send_email_code
    Keeps-send_email_code email = search (steps_rules, outbox_rules, c, Keeps-set_email) depth 9

    pub Keeps-send_phone_code :
        (number : String) → Keeps (IsOnly P allowed full) (VerifyService.send_phone_code P number)
    unfolding VerifyService.send_phone_code
    Keeps-send_phone_code number =
        search (steps_rules, outbox_rules, c, Keeps-parsed_phone P c, Keeps-set_phone) depth 12

    Keeps-use_code :
        (prefix subject code : String)
        → Keeps (IsOnly P allowed full) (VerifyService.use_code P prefix subject code)
    unfolding VerifyService.use_code
    Keeps-use_code prefix subject code =
        search (steps_rules, Keeps-get_or_throw, Keeps-del P L allowed full) depth 9

    Keeps-sign_verification :
        (subject : String) (hint : VerificationType)
        → Keeps (IsOnly P allowed full) (VerifyService.sign_verification P subject hint)
    unfolding VerifyService.sign_verification
    Keeps-sign_verification subject hint = record { after = λ w h. h }

    Keeps-validate_entry :
        (entry : Option (String × String)) (code : String) (hint : VerificationType)
        → Keeps (IsOnly P allowed full) (VerifyService.validate_entry P entry code hint)
    unfolding VerifyService.validate_entry
    Keeps-validate_entry none code hint = search steps_rules
    Keeps-validate_entry (some (prefix, subject)) code hint =
        search (steps_rules, Keeps-use_code, Keeps-sign_verification)

    pub Keeps-validate_code :
        (subject code : String) (hint : VerificationType)
        → Keeps (IsOnly P allowed full) (VerifyService.validate_code P subject code hint)
    unfolding VerifyService.validate_code
    Keeps-validate_code subject code hint = Keeps-validate_entry _ code hint

    pub Keeps-verify_student_id :
        (name birth_date : String)
        → Keeps (IsOnly P allowed full) (VerifyService.verify_student_id P name birth_date)
    unfolding VerifyService.verify_student_id
    Keeps-verify_student_id name birth_date =
        search (steps_rules, Keeps-get_student_id P c, Keeps-sign_verification)

    pub Keeps-verify_phone_number :
        (uuid number code : String)
        → Keeps (IsOnly P allowed full) (UserService.verify_phone_number P uuid number code)
    unfolding UserService.verify_phone_number UserRepository.update_phone_number
        UserRepository.update_user
    Keeps-verify_phone_number uuid number code =
        search (steps_rules, c, Keeps-get_or_throw, Keeps-del P L allowed full) depth 12

    pub Keeps-register_options :
        (email : String) → Keeps (IsOnly P allowed full) (UserService.register_options P email)
    unfolding UserService.register_options UserRepository.find_user_by_email
        UserRepository.authenticator_ids
    Keeps-register_options email = Keeps-bind _ _ (Keeps-query _ _) (λ user.
        Keeps-bind _ _ (Keeps-bind _ _ (Keeps-query _ _) (λ found. Keeps-pure _)) (λ ids.
          Keeps-bind _ _ (record { after = λ w h. c.on_draw w h })
            (λ challenge.
              Keeps-bind _ _ (Keeps-set_registration _ challenge _) (λ _. Keeps-pure _))))

    Keeps-verified_credential :
        (response : Response) (challenge : String)
        → Keeps (IsOnly P allowed full) (UserService.verified_credential P response challenge)
    unfolding UserService.verified_credential
    Keeps-verified_credential response challenge = search steps_rules

    pub Keeps-verify_registration :
        (email name : String) (response : Response) (icon : Option String)
        → Keeps (IsOnly P allowed full) (UserService.verify_registration P email name response icon)
    unfolding UserService.verify_registration UserRepository.find_user_by_email
        UserRepository.save_authenticator
    Keeps-verify_registration email name response icon =
        search
          (
            steps_rules,
            c,
            Keeps-get_or_throw,
            Keeps-verified_credential,
            Keeps-del P L allowed full,
          )
          depth 12
