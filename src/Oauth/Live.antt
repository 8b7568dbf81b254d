-- ===== src/Oauth/Live.antt =====
-- When the stores answer, a redemption is answered, and an authorization leads to tokens
-- (src/oauth/oauth.service.ts).
use idp_be.Prelude.{
  ℕ, ◌+◌, ◌*◌, ◌<◌, String, ◌≡◌, refl, sym, ap, ◌↔◌, ◌∙◌, Bool, true, false, Option, none, some,
  List, includes, ltb, arith, eq_refl, if◌then◌else◌,
}
use idp_be.Exec.{ok, Exec, pure, optional, ok->>=}
use idp_be.Schema.{User, RefreshToken, AuthorizeCache, authorization_type, token_type}
use idp_be.Platform.{Platform, World, UserWhere, later}
use idp_be.Platform.Laws.{RedisLaws}
use idp_be.Database.{query, statement}
use idp_be.Redis.Answers.{RedisAnswers, get_or_throw-answers, set-answers, del-answers}
use idp_be.Redis.Laws.{cached}
use idp_be.Outbox.{picture_url}
use idp_be.User.Repository as UserRepository
use idp_be.User.Service as UserService
use idp_be.Oauth.Types.{AuthorizationReq, TokenRes}
use idp_be.Oauth.Repository
use idp_be.Oauth.Service.{
  code_prefix, token_prefix, code_ttl, access_token_ttl, verifier_matches, issue_refresh_token,
  sign_id_token, authorize, code_grant,
}
use idp_be.Oauth.Tokens.{next_token, fresh_row, drawn_once, generate_opaque_token_lem}
use idp_be.Oauth.CodeGrant.Run.{user_token}
use idp_be.Oauth.CodeGrant.Answers.{code_grant_answers, answer_of}
use idp_be.Oauth.CodeGrant.Sound.{code_grant-IsRedeemed}
use idp_be.Oauth.Authorize.{entry_of, authorize-IsAuthorized}

in_time_live : (a b : ℕ) (e : AuthorizeCache) → a < b → (if ltb a b then some e else none) ≡ some e
in_time_live a b e h = ground arith

module _ {Db Cache Response : Type 0} (P : Platform Db Cache Response) where
  abbrev HasUser : String → Db → Type 0
  HasUser uuid db =
      (user : User) × (P.prisma.users.find_unique_or_throw (UserWhere.by_uuid uuid) db ≡ ok user)

  -- One row of a refresh token is created, and its user has a row afterwards.
  pub record IsCreated (make : RefreshToken) (db : Db) : Type 0 where
    pub row : RefreshToken
    pub after : Db
    pub created : P.prisma.refresh_tokens.create (λ _. make) db ≡ (ok row, after)
    pub user : HasUser make.user_uuid after

  -- The tables answer a redemption for a code: its user has a row, and where the scope asks for a
  -- refresh token, the row that the redemption makes is created.
  pub record RowsAnswer (entry : AuthorizeCache) (w : World Db Cache) : Type 0 where
    pub user : HasUser entry.user_uuid w.db
    pub creates :
        includes "offline_access" entry.scope ≡ true
        → IsCreated (fresh_row P (drawn_once P w) entry.scope entry.user_uuid entry.client_id) w.db

  find_user-answers :
      (uuid : String) (w : World Db Cache) (user : User)
      → P.prisma.users.find_unique_or_throw (UserWhere.by_uuid uuid) w.db ≡ ok user
      → UserService.find_user_by_uuid P uuid w
        ≡ (ok (record user { picture = picture_url P user.picture }), w)
  unfolding UserService.find_user_by_uuid UserRepository.find_user_by_uuid query pure
  find_user-answers uuid w user h = ok->>= _ _ w {a = user} {t = w} (rw h)

  sign-answers :
      (sub aud : String) (given : Option String) (scope : List String) (w : World Db Cache)
      (user : User)
      → P.prisma.users.find_unique_or_throw (UserWhere.by_uuid sub) w.db ≡ ok user
      → (token : String) × (sign_id_token P sub aud given scope w ≡ (ok token, w))
  unfolding sign_id_token
  sign-answers sub aud given scope w user h = (_, ok->>= _ _ w (find_user-answers sub w user h))

  -- An optional step, which answers where its test holds, leads to a state with what the state
  -- before it and the state after the step have.
  optional-answers :
      {T : Type 0} (Q : World Db Cache → Type 0) (b : Bool) (m : Exec (World Db Cache) T)
      (w : World Db Cache)
      → Q w
      → (b ≡ true → (x : T) × (w' : World Db Cache) × (m w ≡ (ok x, w')) × Q w')
      → (o : Option T) × (v : World Db Cache) × (optional b m w ≡ (ok o, v)) × Q v
  unfolding optional
  optional-answers Q true m w q step = let (x, w', h, q') = step refl in (some x, w', rw h, q')
  optional-answers Q false m w q step = (none, w, refl, q)

  refresh-answers :
      (scopes : List String) (uuid client_uuid : String) (w : World Db Cache)
      → IsCreated (fresh_row P w scopes uuid client_uuid) w.db
      → (token : String) × (v : World Db Cache) × (issue_refresh_token P scopes uuid client_uuid w
          ≡ (ok token, v))
        × HasUser uuid v.db
  unfolding issue_refresh_token Repository.create_refresh_token statement pure
  refresh-answers scopes uuid client_uuid w made = (
    next_token P w,
    record (drawn_once P w) { db = made.after },
    ok->>= _ _ w (generate_opaque_token_lem P w)
        ∙ ok->>= _ _ (drawn_once P w) {a = made.row}
            {t = record (drawn_once P w) { db = made.after }} (rw made.created),
    made.user,
  )

  module _ (L : RedisLaws P.redis) (A : RedisAnswers P.redis) where
    -- A redemption by the right client with the right verifier is answered.
    redeems :
        (code verifier : String) (entry : AuthorizeCache) (w : World Db Cache)
        → cached P authorization_type code code_prefix w.now w ≡ some entry
        → verifier_matches P entry.code_challenge_method verifier entry.code_challenge ≡ true
        → RowsAnswer entry w
        → (res : TokenRes) × (w' : World Db Cache) × (code_grant P entry.client_id code verifier w
            ≡ (ok res, w'))
          × (res.scope ≡ entry.scope)
    redeems code verifier entry w live verified rows =
        let (c1, deleted) = del-answers P A code code_prefix w in
        let w1 = record w { cache = c1 } in
        let (c2, stored) =
          set-answers P A token_type (next_token P w1) (user_token entry entry.client_id)
            token_prefix access_token_ttl (drawn_once P w1) in
        let w2 = record (drawn_once P w1) { cache = c2 } in
        let (refreshed, w3, refresh, (user3, found3)) =
          optional-answers (λ v. HasUser entry.user_uuid v.db)
            (includes "offline_access" entry.scope) _ w2 rows.user
            (λ asked.
              let made = rows.creates asked in
              refresh-answers entry.scope entry.user_uuid entry.client_id w2 (record {
                row = made.row;
                after = made.after;
                created = made.created;
                user = made.user;
              })) in
        let (id, signed) =
          sign-answers entry.user_uuid entry.client_id entry.nonce entry.scope w3 user3 found3 in
        let (id_token, w4, sign, _) =
          optional-answers (λ v. HasUser entry.user_uuid v.db) (includes "openid" entry.scope) _ w3
            (user3, found3) (λ _. (id, w3, signed, (user3, found3))) in
        (
          answer_of entry (next_token P w1) refreshed id_token,
          w4,
          code_grant_answers P entry.client_id code verifier w w1 w2 w3 w4 entry refreshed id_token
              (get_or_throw-answers P A authorization_type code code_prefix w entry refl live)
              deleted (eq_refl entry.client_id) verified stored refresh sign,
          refl,
        )

    -- Where Redis answers, and where the tables answer a redemption for what the code stands for, a
    -- redemption is answered exactly if the code stands for something that is the client's and
    -- whose challenge the verifier answers.
    pub code_grant-answered_iff :
        (client_id code verifier : String) (w : World Db Cache)
        → ((entry : AuthorizeCache)
            → cached P authorization_type code code_prefix w.now w ≡ some entry
            → RowsAnswer entry w)
        → ((res : TokenRes) × (w' : World Db Cache) × (code_grant P client_id code verifier w
              ≡ (ok res, w')))
          ↔ ((entry : AuthorizeCache) × (cached P authorization_type code code_prefix w.now w
                ≡ some entry)
              × (entry.client_id ≡ client_id)
              × (verifier_matches P entry.code_challenge_method verifier entry.code_challenge
                  ≡ true))
    code_grant-answered_iff client_id code verifier w rows = (
      (λ (res, w', h).
          let (entry, redeemed) = code_grant-IsRedeemed P L client_id code verifier w w' res h in
          (entry, redeemed.live, redeemed.client, redeemed.verified)),
      (λ (entry, live, client, verified).
          let (res, w', h, _) = redeems code verifier entry w live verified (rows entry live) in
          (res, w', ap (λ c. code_grant P c code verifier w) (sym client) ∙ h)),
    )

    -- A code that an authorization has issued is redeemed: where Redis answers, the user still has
    -- a row and the row for the refresh token, if the scope asks for one, can be created, the
    -- request of the same client within ten minutes, with a verifier that answers the challenge and
    -- with only time in between, is answered with tokens for the scope of the authorization.
    pub authorize_leads_to_tokens :
        (req : AuthorizationReq) (user : User) (w w1 : World Db Cache) (url verifier : String)
        (ms : ℕ)
        → authorize P req user w ≡ (ok url, w1)
        → ms < code_ttl * 1000
        → verifier_matches P req.code_challenge_method verifier req.code_challenge ≡ true
        → RowsAnswer (entry_of req user) (later ms w1)
        → (res : TokenRes) × (w2 : World Db Cache) × (code_grant P req.client_id
              (next_token P w)
              verifier
              (later ms w1)
            ≡ (ok res, w2))
          × (res.scope ≡ req.scope)
    authorize_leads_to_tokens req user w w1 url verifier ms h in_time verified rows =
        let (client, consent, auth) = authorize-IsAuthorized P L req user w w1 url h in
        redeems (next_token P w) verifier (entry_of req user) (later ms w1)
          (auth.code (w1.now + ms) (omega (arith, auth.on_time))
            ∙ in_time_live (w1.now + ms) (w.now + code_ttl * 1000) (entry_of req user)
                (omega (arith, auth.on_time, in_time)))
          verified rows
