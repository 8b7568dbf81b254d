-- ===== src/Redis/Answers.antt =====
-- A Redis that answers every call, and what the service's calls then return.
use idp_be.Prelude.{ℕ, String, ◌≡◌, true, some}
use idp_be.Exec.{ok, pure, ◌>>=◌}
use idp_be.Schema.{CacheType, CachedValue}
use idp_be.Platform.{Platform, World, RedisClient}
use idp_be.Redis.Service.{cache_key, set, get, get_or_throw, del}
use idp_be.Redis.Laws.{cached}

-- Redis answers every call.
pub record RedisAnswers {Cache : Type 0} (r : RedisClient Cache) : Type 0 where
  pub gets : (k : String) (now : ℕ) (c : Cache) → r.get k now c ≡ ok (r.live c now k)
  pub sets :
      (k : String) (v : CachedValue) (ttl now : ℕ) (c : Cache)
      → (c' : Cache) × (r.set k v ttl now c ≡ (ok tt, c'))
  pub dels : (k : String) (now : ℕ) (c : Cache) → (c' : Cache) × (r.del k now c ≡ (ok tt, c'))

module _ {Db Cache Response : Type 0} (P : Platform Db Cache Response) where
  module _ (A : RedisAnswers P.redis) where
    pub get_or_throw-answers :
        {T : Type 0} (type : CacheType T) (key prefix : String) (w : World Db Cache) (v : T)
        → type.truthy v ≡ true
        → cached P type key prefix w.now w ≡ some v
        → get_or_throw P type key prefix w ≡ (ok v, w)
    unfolding get_or_throw get ◌>>=◌ pure
    get_or_throw-answers type key prefix w v truthy h =
        rw (A.gets (cache_key prefix key) w.now w.cache, h, truthy)

    pub set-answers :
        {T : Type 0} (type : CacheType T) (key : String) (v : T) (prefix : String) (ttl : ℕ)
        (w : World Db Cache)
        → (c : Cache) × (set P type key v prefix ttl w ≡ (ok tt, record w { cache = c }))
    unfolding set
    set-answers type key v prefix ttl w =
        let (c, e) = A.sets (cache_key prefix key) (type.stringify v) ttl w.now w.cache in (c, rw e)

    pub del-answers :
        (key prefix : String) (w : World Db Cache)
        → (c : Cache) × (del P key prefix w ≡ (ok tt, record w { cache = c }))
    unfolding del
    del-answers key prefix w = let (c, e) = A.dels (cache_key prefix key) w.now w.cache in (c, rw e)
