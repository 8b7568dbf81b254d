-- ===== src/Api/Split.antt =====
-- Splitting a text at a character that its parts do not have.
use Prim.Native.Char.{Char, code}
use Prim.Native.String.{[], ◌∷◌}
use text.Mathlib.TextLemmas.{cons-append, nil-append}
use idp_be.Prelude.{
  ℕ, String, ◌⋆◌, ◌≡◌, refl, ap, ◌∙◌, Bool, true, not, ◌&&◌, List, ◌∷◌, [], every, arith, and→both,
  if◌then◌else◌,
}
use idp_be.Random.{is_code}
use idp_be.Oauth.Service.{join_words}
use idp_be.Api.Http.{split, onto_first}

-- Whether no character of a text has the code.
unfoldable pub lacks : ℕ → String → Bool
lacks separator [] = true
lacks separator (c ∷ s) = not (is_code (code c) separator) && lacks separator s

not-true : (b : Bool) {A : Type 0} (x y : A) → not b ≡ true → (if b then x else y) ≡ y
not-true b x y h = ground arith

split_other :
    (separator : ℕ) (c : Char) (s : String)
    → not (is_code (code c) separator) ≡ true
    → split separator (c ∷ s) ≡ onto_first c (split separator s)
unfolding split
split_other separator c s h = not-true (is_code (code c) separator) _ _ h

-- A text without the separator is one part.
pub split_lacking :
    (separator : ℕ) (s : String) → lacks separator s ≡ true → split separator s ≡ s ∷ []
unfolding split lacks
split_lacking separator [] h = refl
split_lacking separator (c ∷ s) h =
    let (other, rest) = and→both _ _ h in
    split_other separator c s other ∙ ap (onto_first c) (split_lacking separator s rest)

-- A text with the separator after its first part.
pub split-append :
    (separator : ℕ) (s t : String) (u : List String)
    → lacks separator s ≡ true
    → split separator t ≡ "" ∷ u
    → split separator (s ⋆ t) ≡ s ∷ u
unfolding split lacks
split-append separator [] t u h e = ap (split separator) (nil-append t) ∙ e
split-append separator (c ∷ s) t u h e =
    let (other, rest) = and→both _ _ h in
    ap (split separator) (cons-append c s t)
    ∙ split_other separator c (s ⋆ t) other
    ∙ ap (onto_first c) (split-append separator s t u rest e)

pub split_at_space : (t : String) → split b' ' (" " ⋆ t) ≡ "" ∷ split b' ' t
unfolding split
split_at_space t =
    ap (split b' ') (cons-append " " [] t) ∙ ap (λ s. split b' ' (" " ∷ s)) (nil-append t)

split_at_colon : (t : String) → split b':' (":" ⋆ t) ≡ "" ∷ split b':' t
unfolding split
split_at_colon t =
    ap (split b':') (cons-append ":" [] t) ∙ ap (λ s. split b':' (":" ∷ s)) (nil-append t)

-- Words that are joined by spaces are split again.
pub split-join_words :
    (word : String) (words : List String)
    → every (lacks b' ') (word ∷ words) ≡ true
    → split b' ' (join_words (word ∷ words)) ≡ word ∷ words
split-join_words word [] h = split_lacking b' ' word (and→both _ _ h).0
split-join_words word (next ∷ words) h =
    let (clean, rest) = and→both _ _ h in
    split-append b' ' word (" " ⋆ join_words (next ∷ words)) (next ∷ words) clean (
      split_at_space (join_words (next ∷ words))
      ∙ ap (λ ws. "" ∷ ws) (split-join_words next words rest))

-- What stands before the first colon is the first part.
pub split-colon :
    (s t : String) → lacks b':' s ≡ true → split b':' (s ⋆ (":" ⋆ t)) ≡ s ∷ split b':' t
split-colon s t h = split-append b':' s (":" ⋆ t) (split b':' t) h (split_at_colon t)

split_at_question : (t : String) → split b'?' ("?" ⋆ t) ≡ "" ∷ split b'?' t
unfolding split
split_at_question t =
    ap (split b'?') (cons-append "?" [] t) ∙ ap (λ s. split b'?' ("?" ∷ s)) (nil-append t)

-- What stands before the first question mark is the first part.
pub split-question :
    (s t : String) → lacks b'?' s ≡ true → split b'?' (s ⋆ ("?" ⋆ t)) ≡ s ∷ split b'?' t
split-question s t h = split-append b'?' s ("?" ⋆ t) (split b'?' t) h (split_at_question t)
