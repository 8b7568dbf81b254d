-- ===== src/Redis/Keeps.antt =====
-- A read of the cache keeps everything.
use idp_be.Prelude.{String, Option, none, some}
use idp_be.Exec.{library}
use idp_be.Exec.Keeps.{Keeps, Keeps-bind, Keeps-pure, keeps_rules}
use idp_be.Schema.{CacheType}
use idp_be.Platform.{Platform, World}
use idp_be.Database.Keeps.{Keeps-answer}
use idp_be.Redis.Service.{get, get_or_throw, if_truthy}

module _ {Db Cache Response T : Type 0} (P : Platform Db Cache Response)
    {Q : World Db Cache → Type 0} where
  Keeps-get : (type : CacheType T) (key prefix : String) → Keeps Q (get P type key prefix)
  unfolding get
  Keeps-get type key prefix =
      Keeps-bind _ _ (record { after = λ w h. (Keeps-answer {Q = Q} library _).after w h })
        (λ value. Keeps-pure _)

  Keeps-if_truthy :
      (type : CacheType T) (full : String) (o : Option T) → Keeps Q (if_truthy P type full o)
  Keeps-if_truthy type full none = search keeps_rules
  Keeps-if_truthy type full (some v) = search keeps_rules

  pub Keeps-get_or_throw :
      (type : CacheType T) (key prefix : String) → Keeps Q (get_or_throw P type key prefix)
  unfolding get_or_throw
  Keeps-get_or_throw type key prefix = search (keeps_rules, Keeps-get, Keeps-if_truthy)
