-- ===== src/Random.antt =====
-- Random draws and password hashes: `crypto.randomBytes`, `bcrypt.hashSync(…, genSaltSync(10))`,
-- and the text operations on what they give. A draw moves the counter of the state on.
use Prim.Native.Char.{code}
use Prim.Native.String.{[], ◌∷◌}
use Prim.Native.Nat.{ℕ, ◌+◌}
use idp_be.Prelude.{String, Bool, ◌||◌, List, if◌then◌else◌, leb}
use mathlib.Core.Bool.{◌&&◌}
use idp_be.Exec.{Exec, ok}
use idp_be.Platform.{Platform, World}

abbrev pub is_code : ℕ → ℕ → Bool
is_code a b = leb a b && leb b a

-- `.replace(/[+//=]/g, '')`
unfoldable pub strip_symbols : String → String
strip_symbols [] = []
strip_symbols (c ∷ s) =
    let rest = strip_symbols s in
    if is_code (code c) b'+' || is_code (code c) b'/' || is_code (code c) b'='
    then rest
    else c ∷ rest

module _ {Db Cache Response : Type 0} (P : Platform Db Cache Response) where
  unfoldable pub random_bytes : ℕ → Exec (World Db Cache) (List ℕ)
  random_bytes size w = (ok (P.crypto.random_bytes w.drawn size), record w { drawn = w.drawn + 1 })

  unfoldable pub random_uuid : Exec (World Db Cache) String
  random_uuid w = (ok (P.crypto.random_uuid w.drawn), record w { drawn = w.drawn + 1 })

  unfoldable pub random_int : ℕ → Exec (World Db Cache) ℕ
  random_int max w = (ok (P.crypto.random_int w.drawn max), record w { drawn = w.drawn + 1 })

  unfoldable pub hash_password : String → Exec (World Db Cache) String
  hash_password password w =
      (ok (P.crypto.bcrypt_hash password w.drawn), record w { drawn = w.drawn + 1 })
