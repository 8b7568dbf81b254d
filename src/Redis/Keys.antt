-- ===== src/Redis/Keys.antt =====
-- Keys of different prefixes, and of different names under one prefix, are different keys.
use Prim.Native.Char.{Char, code}
use Prim.Native.String.{[], ◌∷◌}
use text.Mathlib.TextLemmas.{cons-append, append_cancel_left}
use idp_be.Prelude.{ℕ, String, ◌≡◌, ◌≢◌, ap, sym, ◌∙◌, arith}
use idp_be.Redis.Service.{cache_key}

-- The first character of a text, 0 if there is none.
abbrev pub head_code : String → ℕ
head_code [] = 0
head_code (c ∷ s) = code c

head_code-cache_key : (c : Char) (p k : String) → head_code (cache_key (c ∷ p) k) ≡ code c
unfolding cache_key
head_code-cache_key c p k = ap head_code (cons-append c p _)

-- Prefixes that begin with different characters never share a key.
pub cache_key-ne_of_head :
    (c d : Char) (p q k j : String) → code c ≢ code d → cache_key (c ∷ p) k ≢ cache_key (d ∷ q) j
cache_key-ne_of_head c d p q k j ne e =
    ne (sym (head_code-cache_key c p k) ∙ ap head_code e ∙ head_code-cache_key d q j)

pub cache_key-injective : (p k j : String) → cache_key p k ≡ cache_key p j → k ≡ j
unfolding cache_key
cache_key-injective p k j e = append_cancel_left ":" k j (append_cancel_left p _ _ e)

pub code-ne-token : (k j : String) → cache_key "code" k ≢ cache_key "token" j
code-ne-token k j = cache_key-ne_of_head _ _ _ _ k j (omega arith)

pub token-ne-code : (k j : String) → cache_key "token" k ≢ cache_key "code" j
token-ne-code k j = cache_key-ne_of_head _ _ _ _ k j (omega arith)
