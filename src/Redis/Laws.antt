-- ===== src/Redis/Laws.antt =====
-- What `RedisService` does to the cache, where Redis answers.
use idp_be.Prelude.{
  ℕ, String, ◌≡◌, ◌≢◌, ◌+◌, ◌*◌, ◌≤◌, refl, ap, sym, subst, ◌∙◌, Bool, true, false, Option, none,
  some, arith, if◌then◌else◌, ltb,
}
use idp_be.Exec.{
  Exec, Result, ok, err, Exception, library, cache_not_found, pure, throw, ◌>>=◌, >>=-returns,
  answer-eq-ok, catch, catch-eq-ok,
}
use idp_be.Schema.{CacheType, CachedValue}
use idp_be.Platform.{Platform, World}
use idp_be.Platform.Laws.{RedisLaws}
use idp_be.Redis.Service.{cache_key, set, get, get_or_throw, del, put_cache, parsed, if_truthy}

module _ {Db Cache Response : Type 0} (P : Platform Db Cache Response) where
  -- What a key of the service stands for at a time.
  abbrev pub cached :
      {T : Type 0} → CacheType T → (key prefix : String) → ℕ → World Db Cache → Option T
  cached type key prefix t w = parsed P type (P.redis.live w.cache t (cache_key prefix key))

  -- What was read out of a key is what the stored text says.
  pub parsed-eq-some :
      {T : Type 0} (type : CacheType T) (o : Option CachedValue) {v : T}
      → parsed P type o ≡ some v
      → (x : CachedValue) × (o ≡ some x) × (type.parse x ≡ some v)
  parsed-eq-some type none h = cc
  parsed-eq-some type (some x) h = (x, refl, h)

  put_cache-eq-ok :
      (w : World Db Cache) (r : Result String (Unit {0}) × Cache) {u : Unit {0}}
      {w' : World Db Cache}
      → put_cache P w r ≡ (ok u, w')
      → (c : Cache) × (r ≡ (ok tt, c)) × (w' ≡ record w { cache = c })
  put_cache-eq-ok w (ok tt, c) h = (c, refl, cc)
  put_cache-eq-ok w (err e, c) h = cc

  -- A write that succeeded changed the cache only, by Redis's own write.
  pub set-eq-ok :
      {T : Type 0} (type : CacheType T) (key : String) (v : T) (prefix : String) (ttl : ℕ)
      (w : World Db Cache) {u : Unit {0}} {w' : World Db Cache}
      → set P type key v prefix ttl w ≡ (ok u, w')
      → (c : Cache) × (P.redis.set (cache_key prefix key) (type.stringify v) ttl w.now w.cache
          ≡ (ok tt, c))
        × (w' ≡ record w { cache = c })
  unfolding set
  set-eq-ok type key v prefix ttl w h = put_cache-eq-ok w _ h

  pub now-put_cache :
      (w : World Db Cache) (r : Result String (Unit {0}) × Cache) → (put_cache P w r).1.now ≡ w.now
  now-put_cache w (ok u, c) = refl
  now-put_cache w (err e, c) = refl

  pub drawn-put_cache :
      (w : World Db Cache) (r : Result String (Unit {0}) × Cache)
      → (put_cache P w r).1.drawn ≡ w.drawn
  drawn-put_cache w (ok u, c) = refl
  drawn-put_cache w (err e, c) = refl

  pub cache-put_cache :
      (w : World Db Cache) (r : Result String (Unit {0}) × Cache) → (put_cache P w r).1.cache ≡ r.1
  cache-put_cache w (ok u, c) = refl
  cache-put_cache w (err e, c) = refl

  pub del-eq-ok :
      (key prefix : String) (w : World Db Cache) {u : Unit {0}} {w' : World Db Cache}
      → del P key prefix w ≡ (ok u, w')
      → (c : Cache) × (P.redis.del (cache_key prefix key) w.now w.cache ≡ (ok tt, c))
        × (w' ≡ record w { cache = c })
  unfolding del
  del-eq-ok key prefix w h = put_cache-eq-ok w _ h

  guarded-eq-ok :
      {T : Type 0} (b : Bool) (x : T) (e : Exception) (w : World Db Cache) {v : T}
      {w' : World Db Cache}
      → (if b then pure x else throw e) w ≡ (ok v, w')
      → (b ≡ true) × (x ≡ v) × (w ≡ w')
  unfolding throw pure
  guarded-eq-ok true x e w h = (refl, cc, cc)
  guarded-eq-ok false x e w h = cc

  if_truthy-eq-ok :
      {T : Type 0} (type : CacheType T) (full : String) (o : Option T) (w : World Db Cache) {v : T}
      {w' : World Db Cache}
      → if_truthy P type full o w ≡ (ok v, w')
      → (o ≡ some v) × (w ≡ w')
  unfolding throw
  if_truthy-eq-ok type full none w h = cc
  if_truthy-eq-ok type full (some x) w h =
      let (_, same, still) = guarded-eq-ok (type.truthy x) x (cache_not_found full) w h in
      (ap some same, still)

  module _ (L : RedisLaws P.redis) where
    get-eq-ok :
        {T : Type 0} (type : CacheType T) (key prefix : String) (w : World Db Cache) {o : Option T}
        {w' : World Db Cache}
        → get P type key prefix w ≡ (ok o, w')
        → (o ≡ cached type key prefix w.now w) × (w ≡ w')
    unfolding get pure
    get-eq-ok type key prefix w h = >>=-returns _ _ w h λ raw t e e'.
        let (got, same) = answer-eq-ok library _ w e in
        let reads = L.get_reads (cache_key prefix key) w.now w.cache raw got in
        (cc (ap (parsed P type) reads), cc)

    -- What `getOrThrow` returns is what the key holds; the call changes nothing.
    pub get_or_throw-eq-ok :
        {T : Type 0} (type : CacheType T) (key prefix : String) (w : World Db Cache) {v : T}
        {w' : World Db Cache}
        → get_or_throw P type key prefix w ≡ (ok v, w')
        → (cached type key prefix w.now w ≡ some v) × (w ≡ w')
    unfolding get_or_throw
    get_or_throw-eq-ok type key prefix w h = >>=-returns _ _ w h λ o t e e'.
        let (found, same) = get-eq-ok type key prefix w e in
        let (full, same') = if_truthy-eq-ok type (cache_key prefix key) o t e' in
        (cc (found, full), cc (same, same'))

    -- A block that returned after such a read ran on from the same state.
    pub read-goes_on :
        {T B : Type 0} (type : CacheType T) (key prefix : String) (f : T → Exec (World Db Cache) B)
        (w : World Db Cache) {r : B} {t : World Db Cache}
        → (get_or_throw P type key prefix >>= f) w ≡ (ok r, t)
        → (v : T) × (cached type key prefix w.now w ≡ some v) × (f v w ≡ (ok r, t))
    read-goes_on type key prefix f w {r} {t} h = >>=-returns _ _ w h λ v w1 e1 h1.
        let (found, same) = get_or_throw-eq-ok type key prefix w e1 in
        (v, found, subst (λ x. f v x ≡ (ok r, t)) (sym same) h1)

    pub read_or-goes_on :
        {T B : Type 0} (type : CacheType T) (key prefix : String) (handler : Exception → Exception)
        (f : T → Exec (World Db Cache) B) (w : World Db Cache) {r : B} {t : World Db Cache}
        → (catch (get_or_throw P type key prefix) handler >>= f) w ≡ (ok r, t)
        → (v : T) × (cached type key prefix w.now w ≡ some v) × (f v w ≡ (ok r, t))
    read_or-goes_on type key prefix handler f w {r} {t} h = >>=-returns _ _ w h λ v w1 e1 h1.
        let (found, same) = get_or_throw-eq-ok type key prefix w (catch-eq-ok _ _ w e1) in
        (v, found, subst (λ x. f v x ≡ (ok r, t)) (sym same) h1)

    -- What a key holds after a write to it, until and from its expiry.
    pub cached-set :
        {T : Type 0} (type : CacheType T) (key : String) (v : T) (prefix : String) (ttl : ℕ)
        (w : World Db Cache) {u : Unit {0}} {w' : World Db Cache}
        → set P type key v prefix ttl w ≡ (ok u, w')
        → type.parse (type.stringify v) ≡ some v
        → (t : ℕ) → w.now ≤ t
        → cached type key prefix t w' ≡ (if ltb t (w.now + ttl * 1000) then some v else none)
    cached-set type key v prefix ttl w h round t late =
        let (c, e, same) = set-eq-ok type key v prefix ttl w h in
        rw (same, L.set_self (cache_key prefix key) (type.stringify v) ttl w.now w.cache c e t late)
          (ground (arith, round))

    -- Writing one key, whether Redis succeeds or not, leaves what another key holds.
    pub cached-set_other :
        {T U : Type 0} (type : CacheType T) (key : String) (v : T) (prefix : String) (ttl : ℕ)
        (w : World Db Cache) (other : CacheType U) (j q : String)
        → cache_key prefix key ≢ cache_key q j
        → (t : ℕ) → cached other j q t (set P type key v prefix ttl w).1 ≡ cached other j q t w
    unfolding set
    cached-set_other type key v prefix ttl w other j q ne t = ap (parsed P other) (
        ap (λ c. P.redis.live c t (cache_key q j)) (cache-put_cache w _)
        ∙ L.set_other (cache_key prefix key) (type.stringify v) ttl w.now w.cache t _ ne)

    pub now-set :
        {T : Type 0} (type : CacheType T) (key : String) (v : T) (prefix : String) (ttl : ℕ)
        (w : World Db Cache)
        → (set P type key v prefix ttl w).1.now ≡ w.now
    unfolding set
    now-set type key v prefix ttl w = now-put_cache w _

    pub cached-del :
        {T : Type 0} (type : CacheType T) (key prefix : String) (w : World Db Cache) {u : Unit {0}}
        {w' : World Db Cache}
        → del P key prefix w ≡ (ok u, w')
        → (t : ℕ) → w.now ≤ t
        → cached type key prefix t w' ≡ none
    cached-del type key prefix w h t late =
        let (c, e, same) = del-eq-ok key prefix w h in
        rw (same, L.del_self (cache_key prefix key) w.now w.cache c e t late)

    pub now-del : (key prefix : String) (w : World Db Cache) → (del P key prefix w).1.now ≡ w.now
    unfolding del
    now-del key prefix w = now-put_cache w _

    pub cached-del_other :
        {U : Type 0} (key prefix : String) (w : World Db Cache) (other : CacheType U) (j q : String)
        → cache_key prefix key ≢ cache_key q j
        → (t : ℕ) → cached other j q t (del P key prefix w).1 ≡ cached other j q t w
    unfolding del
    cached-del_other key prefix w other j q ne t = ap (parsed P other) (
        ap (λ c. P.redis.live c t (cache_key q j)) (cache-put_cache w _)
        ∙ L.del_other (cache_key prefix key) w.now w.cache t _ ne)
