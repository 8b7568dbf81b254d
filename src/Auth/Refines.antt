-- ===== src/Auth/Refines.antt =====
-- Sessions (src/auth/auth.service.ts) as an abstract store: whom a token stands for, and until when.
use idp_be.Prelude.{
  ℕ, ◌+◌, ◌*◌, ◌≤◌, String, ◌≡◌, ◌≢◌, true, refl, subst, sym, ap, ◌∙◌, false, Option, none, some,
  arith, ltb, inl, inr, Bool-cases, if◌then◌else◌, ◌==◌, eq_iff,
}
use idp_be.Exec.{ok, >>=-returns, >>=-goes_on, guard-goes_on}
use idp_be.Schema.{User, user_ref_type}
use idp_be.Platform.{Platform, World, UserWhere}
use idp_be.Platform.Laws.{RedisLaws}
use idp_be.Redis
use idp_be.Redis.{cache_key}
use idp_be.Redis.Answers.{RedisAnswers, set-answers}
use idp_be.Redis.Laws.{
  cached-set, cached-set_other, cached-del, cached-del_other, del-eq-ok, set-eq-ok, read_or-goes_on,
}
use idp_be.Redis.Keys.{cache_key-injective}
use idp_be.Database.{query-goes_on}
use idp_be.Auth.Repository
use idp_be.Auth.Service.{
  LoginResult, login_result, refresh_token_prefix, refresh_token_expire_time, login, logout,
  refresh, detached,
}
use idp_be.Auth.Sessions.{
  answered-eq-ok, next_session, drawn_once, set_aside, generate_lem, session, login-IsOpened,
  login-keeps,
}

-- The user of a token, and the time from which it is worth nothing.
abbrev pub Sessions : Type 0
Sessions = String → Option (String × ℕ)

unfoldable pub holder : Option (String × ℕ) → ℕ → Option String
holder none t = none
holder (some (uuid, expires)) t = if ltb t expires then some uuid else none

unfoldable pub put : String → Option (String × ℕ) → Sessions → Sessions
put token o s other = if token == other then o else s other

put-same :
    (token : String) (o : Option (String × ℕ)) (s : Sessions) (other : String)
    → token ≡ other
    → put token o s other ≡ o
unfolding put
put-same token o s other e = ap (λ b. if b then o else s other) ((eq_iff token other).1 e)

put-other :
    (token : String) (o : Option (String × ℕ)) (s : Sessions) (other : String)
    → (token == other) ≡ false
    → put token o s other ≡ s other
unfolding put
put-other token o s other e = ap (λ b. if b then o else s other) e

module _ {Db Cache Response : Type 0} (P : Platform Db Cache Response) where
  -- From now on the tokens stand for what the abstract store says.
  pub record Implements (w : World Db Cache) (s : Sessions) : Type 0 where
    pub holds : (token : String) (t : ℕ) → w.now ≤ t → session P token t w ≡ holder (s token) t

  Implements-put :
      (token : String) (o : Option (String × ℕ)) (w w' : World Db Cache) (s : Sessions)
      → w'.now ≡ w.now
      → ((t : ℕ) → w.now ≤ t → session P token t w' ≡ holder o t)
      → ((other : String) → token ≢ other → (t : ℕ) → session P other t w' ≡ session P other t w)
      → Implements w s
      → Implements w' (put token o s)
  Implements-put token o w w' s same_time written kept implements = record {
    holds = λ other t late.
        let late' : w.now ≤ t = omega (arith, late, same_time) in
        elim (Bool-cases (token == other)) [
          | inl same ↦
              let e = (eq_iff token other).0 same in
              ap (λ x. session P x t w') (sym e)
              ∙ written t late'
              ∙ ap (λ x. holder x t) (sym (put-same token o s other e))
          | inr differs ↦
              kept other (λ e. absurd (cc (differs, (eq_iff token other).1 e))) t
              ∙ implements.holds other t late'
              ∙ ap (λ x. holder x t) (sym (put-other token o s other differs))
        ];
  }

  -- An answered call leaves the clock and the tables as they are, and sessions as they should be.
  pub record Reaches (w w' : World Db Cache) (s : Sessions) : Type 0 where
    pub same_time : w'.now ≡ w.now
    pub same_db : w'.db ≡ w.db
    pub implements : Implements w' s

  -- The password of the row of the email matches, and the row is of the user.
  abbrev pub SignsIn : Db → (email password uuid : String) → Type 0
  SignsIn db email password uuid =
      (row : User) × (P.prisma.users.find_unique_or_throw (UserWhere.by_email email) db ≡ ok row)
      × (P.crypto.bcrypt_compare password row.password ≡ true)
      × (row.uuid ≡ uuid)

  -- The row of a user names the user whom answers are signed for.
  abbrev pub IsFound : Db → (uuid signed : String) → Type 0
  IsFound db uuid signed =
      (row : User) × (P.prisma.users.find_unique_or_throw (UserWhere.by_uuid uuid) db ≡ ok row)
      × (row.uuid ≡ signed)

  module _ (L : RedisLaws P.redis) where
    -- A logout that is answered removes the session of its token, and no other.
    pub logout_refines :
        (token : String) (w w' : World Db Cache) (s : Sessions)
        → logout P token w ≡ (ok tt, w')
        → Implements w s
        → Reaches w w' (put token none s)
    unfolding logout holder
    logout_refines token w w' s h implements =
        let (c, _, same) = del-eq-ok P token refresh_token_prefix w h in
        let same_time : w'.now ≡ w.now = ap (λ (x : World Db Cache). x.now) same in
        record {
          same_time = same_time;
          same_db = ap (λ (x : World Db Cache). x.db) same;
          implements =
              Implements-put token none w w' s same_time
                (cached-del P L user_ref_type token refresh_token_prefix w h)
                (λ other ne t.
                  ap (λ x. session P other t x.1) (sym h)
                  ∙ cached-del_other P L token refresh_token_prefix w user_ref_type other
                      refresh_token_prefix (λ e. ne (cache_key-injective _ _ _ e)) t)
                implements;
        }

    -- A login that is answered adds one session, of the user of the email whose password it had,
    -- and until the expiry.
    pub login_refines :
        (email password : String) (w w' : World Db Cache) (res : LoginResult) (s : Sessions)
        → login P email password w ≡ (ok res, w')
        → Implements w s
        → (uuid : String) × SignsIn w.db email password uuid
          × (res.access_token ≡ P.jwt.sign_subject uuid w.now)
          × Reaches w w'
              (put res.refresh_token (some (uuid, w.now + refresh_token_expire_time P * 1000)) s)
    unfolding holder
    login_refines email password w w' res s h implements =
        let (row, read, matched, opened) = login-IsOpened P L email password w w' res h in
        (
          row.uuid,
          (row, read, matched, refl),
          opened.access,
          record {
            same_time = opened.on_time;
            same_db = opened.same_db;
            implements =
                Implements-put res.refresh_token _ w w' s opened.on_time opened.opened
                  (λ other ne t.
                    login-keeps P L email password w w' user_ref_type other refresh_token_prefix
                      (λ e. ne (opened.token ∙ cache_key-injective _ _ _ e)) t h)
                  implements;
          },
        )

    stored_refines :
        (token uuid : String) (w w' : World Db Cache) (s : Sessions)
        → Redis.set P user_ref_type token uuid refresh_token_prefix (refresh_token_expire_time P) w
          ≡ (ok tt, w')
        → Implements w s
        → Reaches w w' (put token (some (uuid, w.now + refresh_token_expire_time P * 1000)) s)
    unfolding holder
    stored_refines token uuid w w' s h implements =
        let (c, _, same) = set-eq-ok P _ _ _ _ _ w h in
        let same_time : w'.now ≡ w.now = ap (λ (x : World Db Cache). x.now) same in
        record {
          same_time = same_time;
          same_db = ap (λ (x : World Db Cache). x.db) same;
          implements =
              Implements-put token _ w w' s same_time
                (cached-set P L user_ref_type token uuid refresh_token_prefix
                  (refresh_token_expire_time P) w h refl)
                (λ other ne t.
                  ap (λ x. session P other t x.1) (sym h)
                  ∙ cached-set_other P L user_ref_type token uuid refresh_token_prefix
                      (refresh_token_expire_time P) w user_ref_type other refresh_token_prefix
                      (λ e. ne (cache_key-injective _ _ _ e)) t)
                implements;
        }

    -- A set of the session that is answered, without its result.
    answered_set :
        RedisAnswers P.redis
        → (token uuid : String) (w : World Db Cache)
        → Redis.set P user_ref_type token uuid refresh_token_prefix (refresh_token_expire_time P) w
          ≡ (
            ok tt,
            (Redis.set P user_ref_type token uuid refresh_token_prefix
                (refresh_token_expire_time P)
                w).1,
          )
    answered_set A token uuid w =
        let (c, e) =
          set-answers P A user_ref_type token uuid refresh_token_prefix
            (refresh_token_expire_time P) w in
        e ∙ (λ i. (ok tt, sym (ap (λ x. x.1) e) i))

    moved :
        (uuid : String) (ms : ℕ) (s : Sessions) {token token' : String} {n n' : ℕ}
        {w w' : World Db Cache}
        → token ≡ token'
        → w ≡ w'
        → n ≡ n'
        → Implements w (put token (some (uuid, n + ms)) s)
        → Implements w' (put token' (some (uuid, n' + ms)) s)
    moved uuid ms s e f g h =
        subst
          (λ (q : (String × World Db Cache) × ℕ).
            Implements q.0.1 (put q.0.0 (some (uuid, q.1 + ms)) s))
          (λ i. ((e i, f i), g i)) h

    -- A refresh that is answered moves the session of its token to a new token, for the same user,
    -- who has a row, and until the expiry, where Redis answers the write of it.
    pub refresh_refines :
        (token : String) (w w' : World Db Cache) (res : LoginResult) (s : Sessions)
        → RedisAnswers P.redis
        → refresh P token w ≡ (ok res, w')
        → Implements w s
        → (uuid : String) × (signed : String) × (holder (s token) w.now ≡ some uuid)
          × IsFound w.db uuid signed
          × (res.access_token ≡ P.jwt.sign_subject signed w.now)
          × Reaches w w' (
              put res.refresh_token
                (some (uuid, w.now + refresh_token_expire_time P * 1000))
                (put token none s))
    unfolding refresh detached logout Repository.find_user_by_uuid
    refresh_refines token w w' res s A h implements =
        let (_, h1) = guard-goes_on _ _ _ w h in
        let (uuid, live, h2) =
          read_or-goes_on P L user_ref_type token refresh_token_prefix _ _ w h1 in
        let (row, read, h3) = query-goes_on _ _ _ w h2 in
        >>=-returns _ _ w h3 λ u w1 e1 h4.
          let h5 = >>=-goes_on _ _ w1 (generate_lem P w1) h4 in
          let w2 =
            (Redis.set P user_ref_type (next_session P w1) uuid refresh_token_prefix
              (refresh_token_expire_time P) (drawn_once P w1)).1 in
          let h6 =
            >>=-goes_on _ _ (drawn_once P w1)
              (set_aside P L (next_session P w1) uuid (drawn_once P w1)) h5 in
          let (answered, ended) =
            answered-eq-ok (login_result P row.uuid (next_session P w1) w2.now) w2 h6 in
          let deleted = logout_refines token w w1 s e1 implements in
          let stored =
            stored_refines (next_session P w1) uuid (drawn_once P w1) w2 (put token none s)
              (answered_set A (next_session P w1) uuid (drawn_once P w1))
              (record { holds = deleted.implements.holds }) in
          (
            uuid,
            row.uuid,
            sym (implements.holds token w.now (omega arith)) ∙ live,
            (row, read, refl),
            (λ i. (sym answered i).access_token)
                ∙ ap (P.jwt.sign_subject row.uuid) (stored.same_time ∙ deleted.same_time),
            record {
              same_time =
                  ap (λ (x : World Db Cache). x.now) (sym ended)
                  ∙ stored.same_time
                  ∙ deleted.same_time;
              same_db =
                  ap (λ (x : World Db Cache). x.db) (sym ended) ∙ stored.same_db ∙ deleted.same_db;
              implements =
                  moved uuid _ (put token none s) (λ i. (answered i).refresh_token) ended
                    deleted.same_time stored.implements;
            },
          )
