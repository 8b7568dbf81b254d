-- ===== src/Oauth/RefreshGrant/Run.antt =====
-- `refreshTokenGrant` (src/oauth/oauth.service.ts), step by step.
use idp_be.Prelude.{
  String, ◌≡◌, sym, ap, ◌∙◌, subst, Bool, true, false, Option, some, List, includes, inl, inr,
  is_blank,
}
use idp_be.Exec.{
  Exec, ok, optional, when, >>=-returns, >>=-goes_on, guard-goes_on, require_text-goes_on,
  pure-eq-ok, throw_if-eq-ok, optional-eq-ok,
}
use idp_be.Schema.{RefreshToken, TokenTo, TokenCache, token_type, User}
use idp_be.Platform.{Platform, World}
use idp_be.Redis
use idp_be.Database.{query-goes_on}
use idp_be.Oauth.Types.{TokenRes}
use idp_be.User.Repository as UserRepository
use idp_be.User.Service as UserService
use idp_be.Oauth.Repository
use idp_be.Oauth.Repository.{is_expired}
use idp_be.Oauth.Service.{
  token_prefix, access_token_ttl, issue_refresh_token, sign_id_token, sign_refreshed_id_token,
  is_other_client, refresh_token_grant,
}
use idp_be.Oauth.Tokens.{next_token, drawn_once, generate_opaque_token_lem}

-- The entry of the access token that a row stands for.
abbrev pub row_token : RefreshToken → TokenCache
row_token row = record {
  to = TokenTo.user;
  sub = some row.user_uuid;
  client_id = row.client_uuid;
  scope = row.scopes;
}

module _ {Db Cache Response : Type 0} (P : Platform Db Cache Response) where
  -- A row that was found is the one that Prisma found, and has not expired.
  find-eq-ok :
      (token : String) (w : World Db Cache) {row : RefreshToken} {w' : World Db Cache}
      → Repository.find_refresh_token_by_token P token w ≡ (ok row, w')
      → (P.prisma.refresh_tokens.find_unique_or_throw token w.db ≡ ok row)
        × (is_expired w.now row ≡ false)
        × (w ≡ w')
  unfolding Repository.find_refresh_token_by_token
  find-eq-ok token w h =
      let (r, read, h1) = query-goes_on _ _ _ w h in
      >>=-returns _ _ w h1 λ u w2 e2 h2.
        let (fresh, same) = throw_if-eq-ok _ _ w e2 in
        let (row_same, ended) = pure-eq-ok r w2 h2 in
        (
          read ∙ (λ i. ok (row_same i)),
          subst (λ x. is_expired w.now x ≡ false) row_same fresh,
          same ∙ ended,
        )

  find_user-eq-ok :
      (uuid : String) (w : World Db Cache) {user : User} {w' : World Db Cache}
      → UserService.find_user_by_uuid P uuid w ≡ (ok user, w')
      → w ≡ w'
  unfolding UserService.find_user_by_uuid UserRepository.find_user_by_uuid
  find_user-eq-ok uuid w h = let (u, read, h1) = query-goes_on _ _ _ w h in (pure-eq-ok _ w h1).1

  -- Signing an id token changes nothing.
  sign_id_token-eq-ok :
      (sub aud : String) (given_nonce : Option String) (scope : List String) (w : World Db Cache)
      {token : String} {w' : World Db Cache}
      → sign_id_token P sub aud given_nonce scope w ≡ (ok token, w')
      → w ≡ w'
  unfolding sign_id_token
  sign_id_token-eq-ok sub aud given_nonce scope w h =
      >>=-returns _ _ w h λ user w2 e2 h2. let same = find_user-eq-ok sub w e2 in cc (same, h2)

  pub optional_sign_id_token-eq-ok :
      (b : Bool) (sub aud : String) (given_nonce : Option String) (scope : List String)
      (w : World Db Cache) {o : Option String} {w' : World Db Cache}
      → optional b (sign_id_token P sub aud given_nonce scope) w ≡ (ok o, w')
      → w ≡ w'
  optional_sign_id_token-eq-ok b sub aud given_nonce scope w h =
      elim (optional-eq-ok b (sign_id_token P sub aud given_nonce scope) w h) [
        | inl (_, _, same) ↦ same
        | inr (_, (t, _, e)) ↦ sign_id_token-eq-ok sub aud given_nonce scope w e
      ]

  -- Signing in a refresh needs the nonce of the row.
  pub sign-eq-ok :
      (row : RefreshToken) (w : World Db Cache) {token : String} {w' : World Db Cache}
      → sign_refreshed_id_token P row w ≡ (ok token, w')
      → (is_blank row.nonce ≡ false) × (w ≡ w')
  unfolding sign_refreshed_id_token
  sign-eq-ok row w h =
      let (there, h1) = guard-goes_on _ _ _ w h in
      (there, sign_id_token-eq-ok row.user_uuid row.client_uuid row.nonce row.scopes w h1)

  -- The steps of a refresh that returned `res`.
  pub record RefreshRun (client_id given : Option String) (w w' : World Db Cache) (res : TokenRes)
      : Type 0 where
    pub token : String
    pub is_given : given ≡ some token
    pub row : RefreshToken
    pub found : P.prisma.refresh_tokens.find_unique_or_throw token w.db ≡ ok row
    pub fresh : is_expired w.now row ≡ false
    pub same_client : is_other_client P row.client_uuid client_id ≡ false
    pub stored_world : World Db Cache
    pub stored :
        Redis.set P token_type
          (next_token P w)
          (row_token row)
          token_prefix
          access_token_ttl
          (drawn_once P w)
        ≡ (ok tt, stored_world)
    pub refreshed_world : World Db Cache
    pub refreshed :
        optional
          (includes "offline_access" row.scopes)
          (issue_refresh_token P row.scopes row.user_uuid row.client_uuid)
          stored_world
        ≡ (ok res.refresh_token, refreshed_world)
    pub signed :
        optional (includes "openid" row.scopes) (sign_refreshed_id_token P row) refreshed_world
        ≡ (ok res.id_token, refreshed_world)
    pub deleted : Repository.delete_refresh_token_by_token P token refreshed_world ≡ (ok tt, w')
    pub access_token : res.access_token ≡ next_token P w
    pub scope : res.scope ≡ row.scopes

  -- A guarded block whose test failed did nothing.
  when-eq-ok :
      (b : Bool) (m : Exec (World Db Cache) (Unit {0})) (w : World Db Cache) {u : Unit {0}}
      {w' : World Db Cache}
      → b ≡ false
      → when b m w ≡ (ok u, w')
      → w ≡ w'
  when-eq-ok true m w off h = cc
  when-eq-ok false m w off h = cc

  optional_sign-eq-ok :
      (b : Bool) (row : RefreshToken) (w : World Db Cache) {o : Option String} {w' : World Db Cache}
      → optional b (sign_refreshed_id_token P row) w ≡ (ok o, w')
      → w ≡ w'
  optional_sign-eq-ok b row w h = elim (optional-eq-ok b (sign_refreshed_id_token P row) w h) [
    | inl (_, _, same) ↦ same
    | inr (_, (t, _, e)) ↦ (sign-eq-ok row w e).1
  ]

  pub refresh_token_grant-run :
      (client_id given : Option String) (w : World Db Cache) {res : TokenRes} {w' : World Db Cache}
      → refresh_token_grant P client_id given w ≡ (ok res, w')
      → RefreshRun client_id given w w' res
  unfolding refresh_token_grant
  refresh_token_grant-run client_id given w {res} {w'} h =
      let (token, is_given, h0) = require_text-goes_on _ _ _ w h in
      >>=-returns _ _ w h0 λ row w1 e1 h1.
        let (found, fresh, same1) = find-eq-ok token w e1 in
        >>=-returns _ _ w1 h1 λ u2 w2 e2 h2.
          let same2 =
            same1 ∙ when-eq-ok _ _ w1 (subst (λ x. is_expired x.now row ≡ false) same1 fresh) e2 in
          let (client_ok, h3) = guard-goes_on _ _ _ w2 h2 in
          let h4 = >>=-goes_on _ _ w2 (generate_opaque_token_lem P w2) h3 in
          >>=-returns _ _ (drawn_once P w2) h4 λ u5 w5 e5 h5. >>=-returns _ _ w5 h5 λ rt w6 e6 h6.
            >>=-returns _ _ w6 h6 λ it w7 e7 h7. >>=-returns _ _ w7 h7 λ u8 w8 e8 h8.
              let (answered, ended) = pure-eq-ok _ w8 h8 in
              let same7 = optional_sign-eq-ok _ row w6 e7 in
              record {
                token = token;
                is_given = is_given;
                row = row;
                found = found;
                fresh = fresh;
                same_client = client_ok;
                stored_world = w5;
                stored =
                    subst
                      (λ x.
                        Redis.set P token_type (next_token P x) (row_token row) token_prefix
                          access_token_ttl (drawn_once P x)
                        ≡ (ok tt, w5))
                      (sym same2) e5;
                refreshed_world = w6;
                refreshed = e6 ∙ (λ i. (ok (answered i).refresh_token, w6));
                signed = e7 ∙ (λ i. (ok (answered i).id_token, sym same7 i));
                deleted =
                    subst (λ x. Repository.delete_refresh_token_by_token P token x ≡ (ok tt, w'))
                      (sym same7) (e8 ∙ (λ i. (ok tt, ended i)));
                access_token =
                    (λ i. (sym answered i).access_token) ∙ ap (λ x. next_token P x) (sym same2);
                scope = λ i. (sym answered i).scope;
              }
