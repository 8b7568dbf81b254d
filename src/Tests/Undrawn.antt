-- ===== src/Tests/Undrawn.antt =====
-- What the sample platform does not draw again.
use Prim.Native.String.{[], ◌∷◌, count}
use text.Mathlib.TextLemmas.{nil-append, cons-append, length-append}
use idp_be.Prelude.{ℕ, zero, suc, String, ◌≡◌, ◌≢◌, refl, sym, ap, ◌∙◌, [], ◌∷◌, arith, ◌≤◌}
use idp_be.Redis.{cache_key}
use idp_be.Redis.Keys.{
  cache_key-ne_of_head, cache_key-injective, code-ne-token, token-ne-code, head_code,
}
use idp_be.Random.{strip_symbols}
use idp_be.Requests.Frame.{IsUndrawn}
use idp_be.Tests.Sample.{sample, tally}

-- The draws of the sample begin with 't'.
head_code-tally : (n : ℕ) → head_code (tally n) ≡ 116
head_code-tally zero = refl
head_code-tally (suc n) = ap head_code (cons-append _ [] (tally n))

head_code-stripped : (n : ℕ) → head_code (strip_symbols (tally n)) ≡ 116
unfolding strip_symbols
head_code-stripped zero = refl
head_code-stripped (suc n) = ap (λ s. head_code (strip_symbols s)) (cons-append _ [] (tally n))

tally-ne : (n : ℕ) (name : String) → head_code name ≢ 116 → tally n ≢ name
tally-ne n name ne e = ne (sym (ap head_code e) ∙ head_code-tally n)

stripped-ne : (n : ℕ) (name : String) → head_code name ≢ 116 → strip_symbols (tally n) ≢ name
stripped-ne n name ne e = ne (sym (ap head_code e) ∙ head_code-stripped n)

tally-suc : (n : ℕ) → tally (suc n) ≡ "t" ∷ tally n
tally-suc n = cons-append "t" "" (tally n) ∙ ap (λ (s : String). "t" ∷ s) (nil-append (tally n))

stripped-tally : (n : ℕ) → strip_symbols (tally n) ≡ tally n
unfolding strip_symbols
stripped-tally zero = refl
stripped-tally (suc n) =
    ap strip_symbols (tally-suc n)
    ∙ ap (λ (s : String). "t" ∷ s) (stripped-tally n)
    ∙ sym (tally-suc n)

-- The first draw of the sample is not drawn again.
count-tally : (n : ℕ) → count (tally n) ≡ suc n
count-tally zero = refl
count-tally (suc n) = length-append "t" (tally n) ∙ omega (arith, count-tally n)

tally-ne_t : (n : ℕ) → 1 ≤ n → tally n ≢ "t"
tally-ne_t n late e = absurd (omega (arith, late, count-tally n, ap count e))

pub t-IsUndrawn_code : IsUndrawn sample (cache_key "code" "t") 1
t-IsUndrawn_code = record {
  opaque = λ n late. record {
    code = λ e. tally-ne_t n late (cache_key-injective _ _ _ e);
    access = token-ne-code _ _;
  };
  session = λ n late. cache_key-ne_of_head _ _ _ _ _ _ (omega arith);
}

pub t-IsUndrawn_token : IsUndrawn sample (cache_key "token" "t") 1
t-IsUndrawn_token = record {
  opaque = λ n late. record {
    code = code-ne-token _ _;
    access = λ e. tally-ne_t n late (cache_key-injective _ _ _ e);
  };
  session = λ n late. cache_key-ne_of_head _ _ _ _ _ _ (omega arith);
}

pub t-IsUndrawn_session : IsUndrawn sample (cache_key "refreshToken" "t") 1
t-IsUndrawn_session = record {
  opaque = λ n late. record {
    code = cache_key-ne_of_head _ _ _ _ _ _ (omega arith);
    access = cache_key-ne_of_head _ _ _ _ _ _ (omega arith);
  };
  session = λ n late e. tally-ne_t n late (sym (stripped-tally n) ∙ cache_key-injective _ _ _ e);
}

pub code-IsUndrawn : IsUndrawn sample (cache_key "code" "c") 0
code-IsUndrawn = record {
  opaque = λ n late. record {
    code = λ e. tally-ne n "c" (omega arith) (cache_key-injective _ _ _ e);
    access = token-ne-code _ _;
  };
  session = λ n late. cache_key-ne_of_head _ _ _ _ _ _ (omega arith);
}

pub access-IsUndrawn : IsUndrawn sample (cache_key "token" "a") 0
access-IsUndrawn = record {
  opaque = λ n late. record {
    code = code-ne-token _ _;
    access = λ e. tally-ne n "a" (omega arith) (cache_key-injective _ _ _ e);
  };
  session = λ n late. cache_key-ne_of_head _ _ _ _ _ _ (omega arith);
}

pub session-IsUndrawn : IsUndrawn sample (cache_key "refreshToken" "s") 0
session-IsUndrawn = record {
  opaque = λ n late. record {
    code = cache_key-ne_of_head _ _ _ _ _ _ (omega arith);
    access = cache_key-ne_of_head _ _ _ _ _ _ (omega arith);
  };
  session = λ n late e. stripped-ne n "s" (omega arith) (cache_key-injective _ _ _ e);
}
