-- ===== src/Redis/Service.antt =====
-- libs/redis/src/redis.service.ts over the `ioredis` client. A value under another shape than the
-- one asked for counts as missing.

use idp_be.Prelude.{ℕ, String, ◌⋆◌, Option, none, some, if◌then◌else◌}
use idp_be.Exec.{
  Exec, Result, ok, err, Exception, cache_not_found, library, pure, throw, answer, ◌>>=◌,
}
use idp_be.Schema.{CachedValue, CacheType}
use idp_be.Platform.{Platform, World}

-- `${prefix}:${key}`
unfoldable pub cache_key : String → String → String
cache_key prefix key = prefix ⋆ (":" ⋆ key)

module _ {Db Cache Response : Type 0} (P : Platform Db Cache Response) where
  -- the state after a command on the cache
  abbrev pub put_cache :
      World Db Cache
      → Result String (Unit {0}) × Cache
      → Result Exception (Unit {0}) × World Db Cache
  put_cache w (ok u, c) = (ok u, record w { cache = c })
  put_cache w (err e, c) = (err (library e), record w { cache = c })

  abbrev pub parsed : {T : Type 0} → CacheType T → Option CachedValue → Option T
  parsed type none = none
  parsed type (some v) = type.parse v

  abbrev pub if_truthy : {T : Type 0} → CacheType T → String → Option T → Exec (World Db Cache) T
  if_truthy type full none = throw (cache_not_found full)
  if_truthy type full (some v) = if type.truthy v then pure v else throw (cache_not_found full)

  unfoldable pub set :
      {T : Type 0}
      → CacheType T
      → (key : String) → T
      → (prefix : String) → (ttl : ℕ) → Exec (World Db Cache) (Unit {0})
  unfolding cache_key
  set type key value prefix ttl w =
      put_cache w (P.redis.set (cache_key prefix key) (type.stringify value) ttl w.now w.cache)

  unfoldable pub get :
      {T : Type 0} → CacheType T → (key prefix : String) → Exec (World Db Cache) (Option T)
  unfolding pure
  get type key prefix = do
    value ← λ w. answer library (P.redis.get (cache_key prefix key) w.now w.cache) w
    pure (parsed type value)

  unfoldable pub get_or_throw :
      {T : Type 0} → CacheType T → (key prefix : String) → Exec (World Db Cache) T
  unfolding get pure throw
  get_or_throw type key prefix = do
    value ← get type key prefix
    if_truthy type (cache_key prefix key) value

  unfoldable pub del : (key prefix : String) → Exec (World Db Cache) (Unit {0})
  del key prefix w = put_cache w (P.redis.del (cache_key prefix key) w.now w.cache)
