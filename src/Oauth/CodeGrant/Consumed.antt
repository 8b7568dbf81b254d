-- ===== src/Oauth/CodeGrant/Consumed.antt =====
-- The first attempt that finds a code uses it up, whether it is redeemed or refused.
use idp_be.Prelude.{ℕ, ◌≤◌, String, ◌≡◌, ◌≢◌, sym, ap, ◌∙◌, none, arith}
use idp_be.Exec.{ok, ok->>=, ok-catch}
use idp_be.Exec.Keeps.{Keeps, Keeps-pure, Keeps-bind, Keeps-throw_if, Keeps-optional}
use idp_be.Schema.{AuthorizeCache, authorization_type, token_type, TokenCache}
use idp_be.Platform.{Platform, World, later}
use idp_be.Platform.Laws.{RedisLaws}
use idp_be.Redis
use idp_be.Redis.Keys.{token-ne-code}
use idp_be.Redis.Laws.{cached, cached-set_other, now-set, cached-del, del-eq-ok}
use idp_be.Database.Keeps.{CacheOnly}
use idp_be.Oauth.Types.{TokenRes}
use idp_be.Oauth.Service.{code_prefix, token_prefix, code_grant}
use idp_be.Oauth.Frame.{Keeps-generate_opaque_token, Keeps-issue_refresh_token, Keeps-sign_id_token}
use idp_be.Oauth.CodeGrant.Run.{code_grant-run}

module _ {Db Cache Response : Type 0} (P : Platform Db Cache Response) where
  -- From the time `start` on, the code stands for nothing.
  pub record IsGone (code : String) (start : ℕ) (w : World Db Cache) : Type 0 where
    pub now : w.now ≡ start
    pub gone : (t : ℕ) → start ≤ t → cached P authorization_type code code_prefix t w ≡ none

  IsGone-CacheOnly : (code : String) (start : ℕ) → CacheOnly (IsGone code start)
  IsGone-CacheOnly code start = record {
    on_db = λ w d h. record { now = h.now; gone = h.gone };
    on_draw = λ w h. record { now = h.now; gone = h.gone };
    on_send = λ w s h. record { now = h.now; gone = h.gone };
  }

  module _ (L : RedisLaws P.redis) where
    -- Storing an access token brings no code back.
    Keeps-store_token :
        (code : String) (start : ℕ) (token : String) (entry : TokenCache) (ttl : ℕ)
        → Keeps (IsGone code start) (Redis.set P token_type token entry token_prefix ttl)
    Keeps-store_token code start token entry ttl = record {
      after = λ w h. record {
        now = now-set P L token_type token entry token_prefix ttl w ∙ h.now;
        gone = λ t late.
            cached-set_other P L token_type token entry token_prefix ttl w authorization_type code
              code_prefix (token-ne-code token code) t
            ∙ h.gone t late;
      };
    }

    IsGone-del :
        (code : String) (w : World Db Cache) {w1 : World Db Cache}
        → Redis.del P code code_prefix w ≡ (ok tt, w1)
        → IsGone code w.now w1
    IsGone-del code w e =
        let (c, deleted, same) = del-eq-ok P code code_prefix w e in
        record {
          now = ap (λ (x : World Db Cache). x.now) same;
          gone = cached-del P L authorization_type code code_prefix w e;
        }

    -- What is gone cannot be redeemed.
    IsGone-refuses :
        (client_id code verifier : String) (w w' : World Db Cache) (res : TokenRes)
        → cached P authorization_type code code_prefix w.now w ≡ none
        → code_grant P client_id code verifier w ≢ (ok res, w')
    IsGone-refuses client_id code verifier w w' res empty h =
        let run = code_grant-run P L client_id code verifier w h in cc (sym empty ∙ run.found)

    -- An attempt that finds a code and deletes it leaves the code gone, however it ends.
    code_grant-IsGone :
        (client_id code verifier : String) (w w1 : World Db Cache) (entry : AuthorizeCache)
        → Redis.get_or_throw P authorization_type code code_prefix w ≡ (ok entry, w)
        → Redis.del P code code_prefix w ≡ (ok tt, w1)
        → IsGone code w.now (code_grant P client_id code verifier w).1
    unfolding code_grant
    code_grant-IsGone client_id code verifier w w1 entry found deleted =
        rw (ok->>= _ _ w (ok-catch _ _ w found), ok->>= _ _ w deleted)
          ((Keeps-bind _ _ (Keeps-throw_if _ _) λ u2. Keeps-bind _ _ (Keeps-throw_if _ _) λ u3.
              Keeps-bind _ _ (Keeps-generate_opaque_token P (IsGone-CacheOnly code w.now)) λ token.
                Keeps-bind _ _ (Keeps-store_token code w.now token _ _) λ u5.
                  Keeps-bind _ _
                    (Keeps-optional _ _
                      (Keeps-issue_refresh_token P (IsGone-CacheOnly code w.now) _ _ _))
                    λ rt.
                      Keeps-bind _ _
                        (Keeps-optional _ _
                          (Keeps-sign_id_token P (IsGone-CacheOnly code w.now) _ _ _ _))
                        λ it. Keeps-pure _).after
            w1 (IsGone-del code w deleted))

    -- Once an attempt has found a code and Redis has deleted it, the next attempt on it never
    -- succeeds, where only time passes in between: whether the first was redeemed or refused, and
    -- whatever client and verifier the second has.
    pub code_grant_consumes :
        (client_id code verifier : String) (w w1 : World Db Cache) (entry : AuthorizeCache)
        → Redis.get_or_throw P authorization_type code code_prefix w ≡ (ok entry, w)
        → Redis.del P code code_prefix w ≡ (ok tt, w1)
        → (client_id' verifier' : String) (ms : ℕ) (w2 : World Db Cache) (res : TokenRes)
        → code_grant P client_id' code verifier'
            (later ms (code_grant P client_id code verifier w).1)
          ≢ (ok res, w2)
    code_grant_consumes client_id code verifier w w1 entry found deleted client_id' verifier' ms w2
          res =
        let gone = code_grant-IsGone client_id code verifier w w1 entry found deleted in
        IsGone-refuses client_id' code verifier' _ w2 res (gone.gone _ (omega (arith, gone.now)))
