-- ===== src/Requests/Frame.antt =====
-- Keys of the cache that hold only certain values and that nothing will be stored under: what each
-- step of a handler does to such a key.
use idp_be.Prelude.{ℕ, ◌+◌, ◌≤◌, String, ◌≡◌, ◌≢◌, sym, ap, subst, ◌∙◌, some, arith}
use idp_be.Exec.{Exec, ◌>>=◌, ok->>=}
use idp_be.Exec.Keeps.{Keeps}
use idp_be.Schema.{CacheType, CachedValue}
use idp_be.Platform.{Platform, World}
use idp_be.Platform.Laws.{RedisLaws}
use idp_be.Database.Keeps.{CacheOnly}
use idp_be.Redis
use idp_be.Redis.{cache_key}
use idp_be.Redis.Laws.{now-put_cache, drawn-put_cache, cache-put_cache}
use idp_be.Random.{strip_symbols}
use idp_be.Oauth.Service as OauthService
use idp_be.Oauth.Service.{code_prefix, token_prefix}
use idp_be.Oauth.Tokens.{next_token, drawn_once, generate_opaque_token_lem}
use idp_be.Auth.Service as AuthService
use idp_be.Auth.Service.{refresh_token_prefix, passkey_prefix}
use idp_be.Auth.Sessions.{next_session, generate_lem}
use idp_be.Verify.Service.{email_prefix, phone_prefix}
use idp_be.User.Service.{passkey_register_prefix}

-- A key that is no challenge and no verification code: their names are not drawn as tokens.
pub record IsTokenKey (full : String) : Type 0 where
  pub no_passkey : (k : String) → cache_key passkey_prefix k ≢ full
  pub no_registration : (k : String) → cache_key passkey_register_prefix k ≢ full
  pub no_email : (k : String) → cache_key email_prefix k ≢ full
  pub no_phone : (k : String) → cache_key phone_prefix k ≢ full

module _ {Db Cache Response : Type 0} (P : Platform Db Cache Response) where
  -- A token of one of the three kinds, as it is drawn, does not name the key.
  pub record IsOther (full token : String) : Type 0 where
    pub code : cache_key code_prefix token ≢ full
    pub access : cache_key token_prefix token ≢ full

  pub record IsUndrawn (full : String) (drawn : ℕ) : Type 0 where
    pub opaque :
        (n : ℕ) → drawn ≤ n → IsOther full (P.crypto.base64url (P.crypto.random_bytes n 32))
    pub session :
        (n : ℕ)
        → drawn ≤ n
        → cache_key refresh_token_prefix
            (strip_symbols (P.crypto.base64 (P.crypto.random_bytes n 32)))
          ≢ full

  -- The key holds only what is allowed at the time from now on, and no token that is still to be
  -- drawn names it.
  pub record IsOnly (allowed : ℕ → CachedValue → Type 0) (full : String) (w : World Db Cache)
      : Type 0 where
    pub only :
        (t : ℕ) → w.now ≤ t → (x : CachedValue) → P.redis.live w.cache t full ≡ some x → allowed t x
    pub undrawn : IsUndrawn full w.drawn

  IsUndrawn-later : (full : String) (n m : ℕ) → n ≤ m → IsUndrawn full n → IsUndrawn full m
  IsUndrawn-later full n m le u = record {
    opaque = λ i late. u.opaque i (omega (arith, le, late));
    session = λ i late. u.session i (omega (arith, le, late));
  }

  pub IsOnly-CacheOnly :
      (allowed : ℕ → CachedValue → Type 0) (full : String) → CacheOnly (IsOnly allowed full)
  IsOnly-CacheOnly allowed full = record {
    on_db = λ w d h. record { only = h.only; undrawn = h.undrawn };
    on_draw = λ w h. record {
      only = h.only;
      undrawn = IsUndrawn-later full w.drawn (w.drawn + 1) (omega arith) h.undrawn;
    };
    on_send = λ w s h. record { only = h.only; undrawn = h.undrawn };
  }

  -- A block that draws a token goes on with one that does not name the key.
  pub Keeps-with_token :
      {A : Type 0} (allowed : ℕ → CachedValue → Type 0) (full : String)
      (f : String → Exec (World Db Cache) A)
      → ((token : String) → IsOther full token → Keeps (IsOnly allowed full) (f token))
      → Keeps (IsOnly allowed full) (OauthService.generate_opaque_token P >>= f)
  Keeps-with_token allowed full f k = record {
    after = λ w h.
        subst (λ r. IsOnly allowed full r.1)
          (sym (ok->>= (OauthService.generate_opaque_token P) f w (generate_opaque_token_lem P w)))
          ((k (next_token P w) (h.undrawn.opaque w.drawn (omega arith))).after (drawn_once P w)
            ((IsOnly-CacheOnly allowed full).on_draw w h));
  }

  pub Keeps-with_session :
      {A : Type 0} (allowed : ℕ → CachedValue → Type 0) (full : String)
      (f : String → Exec (World Db Cache) A)
      → ((token : String)
          → cache_key refresh_token_prefix token ≢ full
          → Keeps (IsOnly allowed full) (f token))
      → Keeps (IsOnly allowed full) (AuthService.generate_opaque_token P >>= f)
  Keeps-with_session allowed full f k = record {
    after = λ w h.
        subst (λ r. IsOnly allowed full r.1)
          (sym (ok->>= (AuthService.generate_opaque_token P) f w (generate_lem P w)))
          ((k (next_session P w) (h.undrawn.session w.drawn (omega arith))).after (drawn_once P w)
            ((IsOnly-CacheOnly allowed full).on_draw w h));
  }

  module _ (L : RedisLaws P.redis) where
    pub Keeps-set :
        {T : Type 0} (allowed : ℕ → CachedValue → Type 0) (full : String) (type : CacheType T)
        (key : String) (v : T) (prefix : String) (ttl : ℕ)
        → cache_key prefix key ≢ full
        → Keeps (IsOnly allowed full) (Redis.set P type key v prefix ttl)
    unfolding Redis.set
    Keeps-set allowed full type key v prefix ttl ne = record {
      after = λ w h. record {
        only = λ t late x held. h.only t (omega (arith, late, now-put_cache P w _)) x (
            sym (L.set_other (cache_key prefix key) (type.stringify v) ttl w.now w.cache t full ne)
            ∙ sym (ap (λ c. P.redis.live c t full) (cache-put_cache P w _))
            ∙ held);
        undrawn = subst (IsUndrawn full) (sym (drawn-put_cache P w _)) h.undrawn;
      };
    }

    -- Deleting brings nothing, whether it is the key that is deleted or another.
    pub Keeps-del :
        (allowed : ℕ → CachedValue → Type 0) (full key prefix : String)
        → Keeps (IsOnly allowed full) (Redis.del P key prefix)
    unfolding Redis.del
    Keeps-del allowed full key prefix = record {
      after = λ w h. record {
        only = λ t late x held. h.only t (omega (arith, late, now-put_cache P w _)) x (
            L.del_brings_nothing (cache_key prefix key) w.now w.cache t full x
              (sym (ap (λ c. P.redis.live c t full) (cache-put_cache P w _)) ∙ held));
        undrawn = subst (IsUndrawn full) (sym (drawn-put_cache P w _)) h.undrawn;
      };
    }
