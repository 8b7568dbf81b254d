-- ===== src/Oauth/UserInfo.antt =====
-- `userinfo` and `revoke` (src/oauth/oauth.service.ts): what a token gives access to.
use idp_be.Prelude.{
  not-not, ℕ, ◌+◌, String, ◌≡◌, ◌≢◌, sym, ap, ◌∙◌, true, false, not, Option, some, arith, includes,
  every, every-includes, ◌==◌,
}
use idp_be.Exec.{
  Result, ok, pure, require_text, ok->>=, >>=-returns, guards-go_on, require_text-goes_on,
  pure-eq-ok, every-for_each_throw_if,
}
use idp_be.Schema.{User, Consent, TokenTo, TokenCache, token_type}
use idp_be.Platform.{Platform, World, UserWhere, ConsentWhere, later}
use idp_be.Platform.Laws.{RedisLaws}
use idp_be.Redis
use idp_be.Redis.Laws.{cached, cached-del, read-goes_on, now-del}
use idp_be.Database.{query, query-goes_on}
use idp_be.Outbox.{picture_url}
use idp_be.User.Repository as UserRepository
use idp_be.User.Service as UserService
use idp_be.Oauth.Types.{UserInfoRes, access_token_hint}
use idp_be.Oauth.Repository
use idp_be.Oauth.Service.{token_prefix, find_token_user, user_info, userinfo, revoke}

module _ {Db Cache Response : Type 0} (P : Platform Db Cache Response) where
  -- the row that Prisma finds for a user
  abbrev pub IsUser : World Db Cache → String → User → Type 0
  IsUser w uuid row = P.prisma.users.find_unique_or_throw (UserWhere.by_uuid uuid) w.db ≡ ok row

  abbrev pub with_picture_url : User → User
  with_picture_url u = record u { picture = picture_url P u.picture }

  find_user-eq-ok :
      (uuid : String) (w : World Db Cache) {user : User} {w' : World Db Cache}
      → UserService.find_user_by_uuid P uuid w ≡ (ok user, w')
      → (row : User) × IsUser w uuid row × (with_picture_url row ≡ user) × (w ≡ w')
  unfolding UserService.find_user_by_uuid UserRepository.find_user_by_uuid
  find_user-eq-ok uuid w h =
      let (row, read, h1) = query-goes_on _ _ _ w h in
      let (same, still) = pure-eq-ok _ w h1 in (row, read, same, still)

  -- Whose data a token may be used for: its own user's, or that of a user who is named in the
  -- request and whose consent to the token's client lies within the token's scope.
  abbrev pub MayRead : World Db Cache → TokenCache → TokenTo → Option String → String → Type 0
  MayRead w entry TokenTo.user given uuid = entry.sub ≡ some uuid
  MayRead w entry TokenTo.client given uuid =
      (given ≡ some uuid)
      × ((consent : Consent) × (P.prisma.consents.find_unique_or_throw
              (ConsentWhere.pair (record { user_uuid = uuid; client_uuid = entry.client_id })) w.db
            ≡ ok consent)
          × ((s : String) → includes s consent.scopes ≡ true → includes s entry.scope ≡ true))

  find_token_user-eq-ok :
      (entry : TokenCache) (to : TokenTo) (given : Option String) (w : World Db Cache) {user : User}
      {w' : World Db Cache}
      → find_token_user P entry to given w ≡ (ok user, w')
      → (uuid : String) × (row : User) × MayRead w entry to given uuid
        × IsUser w uuid row
        × (with_picture_url row ≡ user)
  unfolding find_token_user Repository.find_consent
  find_token_user-eq-ok entry TokenTo.client given w h =
      let (uuid, named, h1) = require_text-goes_on _ _ _ w h in
      let (consent, read, h2) = query-goes_on _ _ _ w h1 in
      let (within, h3) = guards-go_on _ _ _ _ w h2 in
      let (row, found, same, _) = find_user-eq-ok uuid w h3 in
      (
        uuid,
        row,
        (named, (consent, read, λ s m. not-not _ (every-includes _ consent.scopes s within m))),
        found,
        same,
      )
  find_token_user-eq-ok entry TokenTo.user given w h =
      let (uuid, named, h1) = require_text-goes_on _ _ _ w h in
      let (row, found, same, _) = find_user-eq-ok uuid w h1 in (uuid, row, named, found, same)

  module _ (L : RedisLaws P.redis) where
    -- A request for user info that is answered came with a live access token that may be used for
    -- the user whose data is returned, and the answer has those claims of that user's row that the
    -- scope of the token names.
    pub userinfo_answers :
        (token : String) (given : Option String) (w w' : World Db Cache) (res : UserInfoRes)
        → userinfo P token given w ≡ (ok res, w')
        → (entry : TokenCache) × (uuid : String) × (row : User) × (cached P token_type token
              token_prefix w.now w
            ≡ some entry)
          × MayRead w entry entry.to given uuid
          × IsUser w uuid row
          × (res ≡ user_info P entry.scope (with_picture_url row))
    unfolding userinfo
    userinfo_answers token given w w' res h =
        let (entry, live, h1) = read-goes_on P L token_type token token_prefix _ w h in
        >>=-returns _ _ w h1 λ user w1 e1 h2.
          let (uuid, row, may, found, same) = find_token_user-eq-ok entry entry.to given w e1 in
          let (answered, _) = pure-eq-ok _ w1 h2 in
          (
            entry,
            uuid,
            row,
            live,
            may,
            found,
            sym answered ∙ ap (user_info P entry.scope) (sym same),
          )

    -- An access token that was revoked gives no user info, at once or after any time in which
    -- nothing else happens.
    pub revoke-userinfo :
        (token : String) (w w1 : World Db Cache)
        → revoke P token (some access_token_hint) w ≡ (ok tt, w1)
        → (given : Option String) (ms : ℕ) (w2 : World Db Cache) (res : UserInfoRes)
        → userinfo P token given (later ms w1) ≢ (ok res, w2)
    unfolding revoke
    revoke-userinfo token w w1 h given ms w2 res h' =
        let (entry, uuid, row, live, may, found, answered) =
          userinfo_answers token given (later ms w1) w2 res h' in
        let on_time =
          sym (ap (λ (x : Result _ (Unit {0}) × World Db Cache). x.1.now) h)
          ∙ now-del P L token token_prefix w in
        let gone =
          cached-del P L token_type token token_prefix w h (w1.now + ms) (omega (arith, on_time)) in
        cc (sym gone ∙ live)

  -- The token's scope covers what the user consented to, and may have more.
  find_consented_user :
      (entry : TokenCache) (uuid : String) (w : World Db Cache) (consent : Consent) (row : User)
      → (uuid == "") ≡ false
      → P.prisma.consents.find_unique_or_throw
          (ConsentWhere.pair (record { user_uuid = uuid; client_uuid = entry.client_id }))
          w.db
        ≡ ok consent
      → every (λ s. not (not (includes s entry.scope))) consent.scopes ≡ true
      → IsUser w uuid row
      → find_token_user P entry TokenTo.client (some uuid) w ≡ (ok (with_picture_url row), w)
  unfolding find_token_user Repository.find_consent UserService.find_user_by_uuid
      UserRepository.find_user_by_uuid query require_text pure
  find_consented_user entry uuid w consent row named read within found =
      ok->>= _ _ w {a = uuid} {t = w} (rw named)
      ∙ ok->>= _ _ w {a = consent} {t = w} (rw read)
      ∙ ok->>= _ _ w (every-for_each_throw_if consent.scopes _ _ w within)
      ∙ ok->>= _ _ w {a = row} {t = w} (rw found)

  -- For a client's token the answer ignores what the user consented to: where the token's scope
  -- has `student_id`, the student id is returned although the consent lacks that scope.
  pub userinfo_ignores_consent :
      (token uuid : String) (w : World Db Cache) (entry : TokenCache) (consent : Consent)
      (row : User)
      → Redis.get_or_throw P token_type token token_prefix w ≡ (ok entry, w)
      → entry.to ≡ TokenTo.client
      → (uuid == "") ≡ false
      → P.prisma.consents.find_unique_or_throw
          (ConsentWhere.pair (record { user_uuid = uuid; client_uuid = entry.client_id }))
          w.db
        ≡ ok consent
      → every (λ s. not (not (includes s entry.scope))) consent.scopes ≡ true
      → includes "student_id" consent.scopes ≡ false
      → includes "student_id" entry.scope ≡ true
      → IsUser w uuid row
      → (res : UserInfoRes) × (userinfo P token (some uuid) w ≡ (ok res, w))
        × (res.student_id ≡ some row.student_id)
  unfolding userinfo pure
  userinfo_ignores_consent token uuid w entry consent row live to_client named read within
        unconsented granted found =
      (
        user_info P entry.scope (with_picture_url row),
        ok->>= _ _ w live
            ∙ ok->>= _ _ w (
                ap (λ to. find_token_user P entry to (some uuid) w) to_client
                ∙ find_consented_user entry uuid w consent row named read within found),
        rw granted,
      )
