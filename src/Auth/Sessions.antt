-- ===== src/Auth/Sessions.antt =====
-- `login`, `refresh` and `logout` (src/auth/auth.service.ts): sessions by opaque refresh tokens.
use idp_be.Prelude.{
  not-eq-false, ℕ, ◌+◌, ◌*◌, ◌≤◌, String, ◌≡◌, ◌≢◌, refl, sym, ap, ◌∙◌, true, Option, none, some,
  arith, ltb, if◌then◌else◌,
}
use idp_be.Exec.{Result, ok, Exception, pure, ◌>>=◌, >>=-returns, >>=-goes_on, guard-goes_on}
use idp_be.Schema.{CacheType, User, user_ref_type}
use idp_be.Platform.{Platform, World, UserWhere, later}
use idp_be.Platform.Laws.{RedisLaws}
use idp_be.Redis
use idp_be.Redis.{cache_key}
use idp_be.Redis.Laws.{
  cached, cached-set, cached-set_other, cached-del, now-del, now-set, set-eq-ok, read_or-goes_on,
}
use idp_be.Redis.Keys.{cache_key-injective}
use idp_be.Database.{query-goes_on}
use idp_be.Random.{random_bytes, strip_symbols}
use idp_be.Auth.Repository
use idp_be.Auth.Service.{
  LoginResult, refresh_token_prefix, refresh_token_expire_time, login_result, generate_opaque_token,
  issue_tokens, login, logout, refresh, detached,
}

pub answered-eq-ok :
    {S A : Type 0} (x : A) (s : S) {r : A} {t : S}
    → ◌≡◌ {A = Result Exception A × S} (ok x, s) (ok r, t)
    → (x ≡ r) × (s ≡ t)
answered-eq-ok x s h = (cc, cc)

module _ {Db Cache Response : Type 0} (P : Platform Db Cache Response) where
  -- The refresh token that the next draw gives.
  abbrev pub next_session : World Db Cache → String
  next_session w = strip_symbols (P.crypto.base64 (P.crypto.random_bytes w.drawn 32))

  abbrev pub drawn_once : World Db Cache → World Db Cache
  drawn_once w = record w { drawn = w.drawn + 1 }

  pub generate_lem :
      (w : World Db Cache) → generate_opaque_token P w ≡ (ok (next_session w), drawn_once w)
  unfolding generate_opaque_token random_bytes pure ◌>>=◌
  generate_lem w = refl

  -- The user that a refresh token stands for at a time.
  abbrev pub session : String → ℕ → World Db Cache → Option String
  session token t w = cached P user_ref_type token refresh_token_prefix t w

  module _ (L : RedisLaws P.redis) where
    -- What a session that was opened looks like.
    pub record IsOpened (uuid : String) (w w' : World Db Cache) (res : LoginResult) : Type 0 where
      pub access : res.access_token ≡ P.jwt.sign_subject uuid w.now
      pub token : res.refresh_token ≡ next_session w
      pub opened :
          (t : ℕ)
          → w.now ≤ t
          → session res.refresh_token t w'
            ≡ (if ltb t (w.now + refresh_token_expire_time P * 1000) then some uuid else none)
      pub on_time : w'.now ≡ w.now
      pub same_db : w'.db ≡ w.db

    pub issue_tokens-IsOpened :
        (uuid : String) (w w' : World Db Cache) {res : LoginResult}
        → issue_tokens P uuid w ≡ (ok res, w')
        → IsOpened uuid w w' res
    unfolding issue_tokens
    issue_tokens-IsOpened uuid w w' h =
        let h1 = >>=-goes_on _ _ w (generate_lem w) h in
        >>=-returns _ _ (drawn_once w) h1 λ u w1 e1 h2.
          let (c, _, same) = set-eq-ok P _ _ _ _ _ _ e1 in
          let (answered, ended) =
            answered-eq-ok (login_result P uuid (next_session w) w1.now) w1 h2 in
          record {
            access =
                (λ i. (sym answered i).access_token)
                ∙ ap (λ (x : World Db Cache). P.jwt.sign_subject uuid x.now) same;
            token = λ i. (sym answered i).refresh_token;
            opened = λ t late.
                (λ i. session ((sym answered i).refresh_token) t (sym ended i))
                ∙ cached-set P L user_ref_type (next_session w) uuid refresh_token_prefix
                    (refresh_token_expire_time P) (drawn_once w) e1 refl t late;
            on_time =
                ap (λ (x : World Db Cache). x.now) (sym ended)
                ∙ ap (λ (x : World Db Cache). x.now) same;
            same_db =
                ap (λ (x : World Db Cache). x.db) (sym ended)
                ∙ ap (λ (x : World Db Cache). x.db) same;
          }

    -- A session that is opened leaves what other keys hold.
    pub issue_tokens-keeps :
        {T : Type 0} (uuid : String) (w w' : World Db Cache) {res : LoginResult}
        (type : CacheType T) (key prefix : String)
        → cache_key refresh_token_prefix (next_session w) ≢ cache_key prefix key
        → (t : ℕ) → issue_tokens P uuid w ≡ (ok res, w')
        → cached P type key prefix t w' ≡ cached P type key prefix t w
    unfolding issue_tokens
    issue_tokens-keeps uuid w w' type key prefix ne t h =
        let h1 = >>=-goes_on _ _ w (generate_lem w) h in
        >>=-returns _ _ (drawn_once w) h1 λ u w1 e1 h2.
          let (_, ended) = answered-eq-ok (login_result P uuid (next_session w) w1.now) w1 h2 in
          ap (cached P type key prefix t) (sym ended)
          ∙ ap
              (λ (x : Result Exception (Unit {0}) × World Db Cache). cached P type key prefix t x.1)
              (sym e1)
          ∙ cached-set_other P L user_ref_type (next_session w) uuid refresh_token_prefix
              (refresh_token_expire_time P) (drawn_once w) type key prefix ne t

    -- A login that returns found the row of the email, whose hash the password matches; the access
    -- token is signed for that user, and the refresh token stands for the user until the expiry:
    -- the value of `ms`, which counts milliseconds, taken as seconds.
    pub login-IsOpened :
        (email password : String) (w w' : World Db Cache) (res : LoginResult)
        → login P email password w ≡ (ok res, w')
        → (row : User) × (P.prisma.users.find_unique_or_throw (UserWhere.by_email email) w.db
            ≡ ok row)
          × (P.crypto.bcrypt_compare password row.password ≡ true)
          × IsOpened row.uuid w w' res
    unfolding login Repository.find_user_by_email
    login-IsOpened email password w w' res h =
        let (row, read, h1) = query-goes_on _ _ _ w h in
        let (matched, h2) = guard-goes_on _ _ _ w h1 in
        (row, read, not-eq-false _ matched, issue_tokens-IsOpened row.uuid w w' h2)

    -- So does a login.
    pub login-keeps :
        {T : Type 0} (email password : String) (w w' : World Db Cache) {res : LoginResult}
        (type : CacheType T) (key prefix : String)
        → cache_key refresh_token_prefix (next_session w) ≢ cache_key prefix key
        → (t : ℕ) → login P email password w ≡ (ok res, w')
        → cached P type key prefix t w' ≡ cached P type key prefix t w
    unfolding login Repository.find_user_by_email
    login-keeps email password w w' type key prefix ne t h =
        let (row, _, h1) = query-goes_on _ _ _ w h in
        let (_, h2) = guard-goes_on _ _ _ w h1 in
        issue_tokens-keeps row.uuid w w' type key prefix ne t h2

    -- What a refresh checked, and that the old token is worth nothing afterwards.
    pub record IsRefreshed (token : String) (w w' : World Db Cache) (res : LoginResult)
        (uuid : String) (row : User) : Type 0 where
      pub live : session token w.now w ≡ some uuid
      pub row_found : P.prisma.users.find_unique_or_throw (UserWhere.by_uuid uuid) w.db ≡ ok row
      pub access : res.access_token ≡ P.jwt.sign_subject row.uuid w.now
      pub on_time : w'.now ≡ w.now
      pub gone : token ≢ res.refresh_token → (t : ℕ) → w.now ≤ t → session token t w' ≡ none

    pub set_aside :
        (token uuid : String) (w : World Db Cache)
        → detached P
            (Redis.set P user_ref_type token uuid refresh_token_prefix
              (refresh_token_expire_time P))
            w
          ≡ (
            ok tt,
            (Redis.set P user_ref_type token uuid refresh_token_prefix
                (refresh_token_expire_time P)
                w).1,
          )
    unfolding detached
    set_aside token uuid w = refl

    -- A refresh that returns was given a live token of a user who still has a row, for whom the
    -- access token is signed; from then on the old token stands for nobody, where the new one is
    -- another text.
    pub refresh-IsRefreshed :
        (token : String) (w w' : World Db Cache) (res : LoginResult)
        → refresh P token w ≡ (ok res, w')
        → (uuid : String) × (row : User) × IsRefreshed token w w' res uuid row
    unfolding refresh Repository.find_user_by_uuid
    refresh-IsRefreshed token w w' res h =
        let (_, h1) = guard-goes_on _ _ _ w h in
        let (uuid, live, h2) =
          read_or-goes_on P L user_ref_type token refresh_token_prefix _ _ w h1 in
        let (row, read, h3) = query-goes_on _ _ _ w h2 in
        >>=-returns _ _ w h3 λ u w1 e1 h4.
          let h5 = >>=-goes_on _ _ w1 (generate_lem w1) h4 in
          let w2 =
            (Redis.set P user_ref_type (next_session w1) uuid refresh_token_prefix
              (refresh_token_expire_time P) (drawn_once w1)).1 in
          let h6 =
            >>=-goes_on _ _ (drawn_once w1) (set_aside (next_session w1) uuid (drawn_once w1)) h5 in
          let (answered, ended) =
            answered-eq-ok (login_result P row.uuid (next_session w1) w2.now) w2 h6 in
          let on_time : w2.now ≡ w.now =
            now-set P L user_ref_type (next_session w1) uuid refresh_token_prefix
              (refresh_token_expire_time P) (drawn_once w1)
            ∙ ap (λ (x : Result Exception (Unit {0}) × World Db Cache). x.1.now) (sym e1)
            ∙ now-del P L token refresh_token_prefix w in
          (
            uuid,
            row,
            record {
              live = live;
              row_found = read;
              access =
                  (λ i. (sym answered i).access_token) ∙ ap (P.jwt.sign_subject row.uuid) on_time;
              on_time = ap (λ (x : World Db Cache). x.now) (sym ended) ∙ on_time;
              gone = λ ne t late.
                  ap (session token t) (sym ended)
                  ∙ cached-set_other P L user_ref_type (next_session w1) uuid refresh_token_prefix
                      (refresh_token_expire_time P) (drawn_once w1) user_ref_type token
                      refresh_token_prefix
                      (λ same.
                        ne (
                          sym (cache_key-injective _ _ _ same) ∙ (λ i. (answered i).refresh_token)))
                      t
                  ∙ cached-del P L user_ref_type token refresh_token_prefix w e1 t late;
            },
          )

    -- After a logout no refresh with the token returns, at once or after any time in which nothing
    -- else happens.
    pub logout-refresh :
        (token : String) (w w1 : World Db Cache)
        → logout P token w ≡ (ok tt, w1)
        → (ms : ℕ) (w2 : World Db Cache) (res : LoginResult)
        → refresh P token (later ms w1) ≢ (ok res, w2)
    unfolding logout
    logout-refresh token w w1 h ms w2 res h' =
        let (uuid, row, r) = refresh-IsRefreshed token (later ms w1) w2 res h' in
        let on_time =
          sym (ap (λ (x : Result Exception (Unit {0}) × World Db Cache). x.1.now) h)
          ∙ now-del P L token refresh_token_prefix w in
        let gone =
          cached-del P L user_ref_type token refresh_token_prefix w h (w1.now + ms)
            (omega (arith, on_time)) in
        cc (sym gone ∙ r.live)

    -- A token that a refresh has used up is refused, at once or after any time in which nothing
    -- else happens, where the new token is another text.
    pub refresh-refresh :
        (token : String) (w w1 : World Db Cache) (res : LoginResult)
        → refresh P token w ≡ (ok res, w1)
        → token ≢ res.refresh_token
        → (ms : ℕ) (w2 : World Db Cache) (res' : LoginResult)
        → refresh P token (later ms w1) ≢ (ok res', w2)
    refresh-refresh token w w1 res h ne ms w2 res' h' =
        let (uuid, row, first) = refresh-IsRefreshed token w w1 res h in
        let (uuid', row', second) = refresh-IsRefreshed token (later ms w1) w2 res' h' in
        cc (sym (first.gone ne (w1.now + ms) (omega (arith, first.on_time))) ∙ second.live)
