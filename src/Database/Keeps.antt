-- ===== src/Database/Keeps.antt =====
-- Predicates on what the cache and the clock say are kept by every step that is no cache command.
use idp_be.Prelude.{ℕ, ◌+◌, String, List}
use idp_be.Exec.{Result, ok, err, Exception, PrismaError, answer}
use idp_be.Exec.Keeps.{Keeps, keeps_rules}
use idp_be.Platform.{Platform, World, Message}
use idp_be.Random.{random_bytes, random_uuid, random_int, hash_password}
use idp_be.Database.Calls.{query, statement, settle}

-- `Q` does not look at the database, the draws or the messages.
pub record CacheOnly {Db Cache : Type 0} (Q : World Db Cache → Type 0) : Type 0 where
  pub on_db : (w : World Db Cache) (d : Db) → Q w → Q (record w { db = d })
  pub on_draw : (w : World Db Cache) → Q w → Q (record w { drawn = w.drawn + 1 })
  pub on_send : (w : World Db Cache) (s : List Message) → Q w → Q (record w { sent = s })

module _ {Db Cache A : Type 0} (Q : World Db Cache → Type 0) where
  keeps_answer :
      {E : Type 0} (handler : E → Exception) (r : Result E A) (w : World Db Cache)
      → Q w
      → Q (answer handler r w).1
  keeps_answer handler (ok a) w h = h
  keeps_answer handler (err e) w h = h

module _ {Db Cache A : Type 0} {Q : World Db Cache → Type 0} where
  -- An answer of a library keeps everything.
  pub Keeps-answer :
      {E : Type 0} (handler : E → Exception) (r : Result E A) → Keeps Q (answer handler r)
  Keeps-answer handler r = record { after = λ w h. keeps_answer Q handler r w h }

  -- A read of the database keeps everything.
  pub Keeps-query :
      (call : Db → Result PrismaError A) (handler : PrismaError → Exception)
      → Keeps Q (query call handler)
  unfolding query
  Keeps-query call handler = record { after = λ w h. keeps_answer Q handler (call w.db) w h }

  keeps_settle :
      (handler : PrismaError → Exception) (w : World Db Cache) (r : Result PrismaError A × Db)
      → CacheOnly Q
      → Q w
      → Q (settle handler w r).1
  keeps_settle handler w (ok a, d) c h = c.on_db w d h
  keeps_settle handler w (err e, d) c h = c.on_db w d h

  pub Keeps-statement :
      (call : Db → Result PrismaError A × Db) (handler : PrismaError → Exception)
      → CacheOnly Q
      → Keeps Q (statement call handler)
  unfolding statement
  Keeps-statement call handler c = record { after = λ w h. keeps_settle handler w (call w.db) c h }

module _ {Db Cache Response : Type 0} (P : Platform Db Cache Response)
    {Q : World Db Cache → Type 0} where
  pub Keeps-random_uuid : CacheOnly Q → Keeps Q (random_uuid P)
  unfolding random_uuid
  Keeps-random_uuid c = record { after = λ w h. c.on_draw w h }

  pub Keeps-random_int : (max : ℕ) → CacheOnly Q → Keeps Q (random_int P max)
  unfolding random_int
  Keeps-random_int max c = record { after = λ w h. c.on_draw w h }

  pub Keeps-hash_password : (password : String) → CacheOnly Q → Keeps Q (hash_password P password)
  unfolding hash_password
  Keeps-hash_password password c = record { after = λ w h. c.on_draw w h }

  pub Keeps-random_bytes : (size : ℕ) → CacheOnly Q → Keeps Q (random_bytes P size)
  unfolding random_bytes
  Keeps-random_bytes size c = record { after = λ w h. c.on_draw w h }

pub ruleset steps_rules = (
  keeps_rules, Keeps-answer, Keeps-query, Keeps-statement, Keeps-random_bytes, Keeps-random_uuid,
  Keeps-random_int, Keeps-hash_password,
)
