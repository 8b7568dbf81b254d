-- ===== src/Verify/Digits/Values.antt =====
-- What the six digits of a code say: their number, and the value that they read back as.
use Prim.Native.Char.{code}
use Prim.Native.Nat.{◌/◌, ◌%◌}
use Prim.Native.String.{[], ◌∷◌, count}
use text.Mathlib.TextLemmas.{length-append, nil-append, cons-append, append_assoc}
use idp_be.Prelude.{
  ℕ, zero, suc, ◌+◌, ◌*◌, ◌-◌, ◌≤◌, ◌<◌, ◌≡◌, refl, sym, ap, ◌∙◌, String, ◌⋆◌, ◌⊎◌, inl, inr, ltb,
  ltb→lt, ltb_false→le, arith, Bool-cases,
}
use idp_be.Verify.Digits.{digit, decimal, zeros, pad_start, six_digits}

-- The number that a text of digits reads as, after digits that read as `before`.
unfoldable pub number_after : (before : ℕ) → String → ℕ
number_after before [] = before
number_after before (c ∷ s) = number_after (before * 10 + (code c - 48)) s

unfoldable pub pow10 : ℕ → ℕ
pow10 zero = 1
pow10 (suc k) = 10 * pow10 k

number_after-append :
    (n : ℕ) (s t : String) → number_after n (s ⋆ t) ≡ number_after (number_after n s) t
unfolding number_after
number_after-append n [] t = ap (number_after n) (nil-append t)
number_after-append n (c ∷ s) t =
    ap (number_after n) (cons-append c s t) ∙ number_after-append (n * 10 + (code c - 48)) s t

number_after-digit : (n d : ℕ) → d < 10 → number_after n (digit d) ≡ n * 10 + d
unfolding number_after
number_after-digit n zero h = omega arith
number_after-digit n (suc zero) h = omega arith
number_after-digit n (suc (suc zero)) h = omega arith
number_after-digit n (suc (suc (suc zero))) h = omega arith
number_after-digit n (suc (suc (suc (suc zero)))) h = omega arith
number_after-digit n (suc (suc (suc (suc (suc zero))))) h = omega arith
number_after-digit n (suc (suc (suc (suc (suc (suc zero)))))) h = omega arith
number_after-digit n (suc (suc (suc (suc (suc (suc (suc zero))))))) h = omega arith
number_after-digit n (suc (suc (suc (suc (suc (suc (suc (suc zero)))))))) h = omega arith
number_after-digit n (suc (suc (suc (suc (suc (suc (suc (suc (suc zero))))))))) h = omega arith
number_after-digit n (suc (suc (suc (suc (suc (suc (suc (suc (suc (suc d)))))))))) h =
    absurd (omega arith)

count-digit : (d : ℕ) → d < 10 → count (digit d) ≡ 1
count-digit zero h = refl
count-digit (suc zero) h = refl
count-digit (suc (suc zero)) h = refl
count-digit (suc (suc (suc zero))) h = refl
count-digit (suc (suc (suc (suc zero)))) h = refl
count-digit (suc (suc (suc (suc (suc zero))))) h = refl
count-digit (suc (suc (suc (suc (suc (suc zero)))))) h = refl
count-digit (suc (suc (suc (suc (suc (suc (suc zero))))))) h = refl
count-digit (suc (suc (suc (suc (suc (suc (suc (suc zero)))))))) h = refl
count-digit (suc (suc (suc (suc (suc (suc (suc (suc (suc zero))))))))) h = refl
count-digit (suc (suc (suc (suc (suc (suc (suc (suc (suc (suc d)))))))))) h = absurd (omega arith)

decimal_small : (fuel n : ℕ) → n < 10 → decimal (suc fuel) n ≡ digit n
unfolding decimal
decimal_small fuel n h = ground arith

decimal_large :
    (fuel n : ℕ) → 10 ≤ n → decimal (suc fuel) n ≡ decimal fuel (n / 10) ⋆ digit (n % 10)
unfolding decimal
decimal_large fuel n h = ground arith

-- Whether a number has one digit.
one_digit : (n : ℕ) → (n < 10) ⊎ (10 ≤ n)
one_digit n = elim (Bool-cases (ltb n 10)) [
  | inl small ↦ inl (ltb→lt n 10 small)
  | inr large ↦ inr (ltb_false→le n 10 large)
]

pow10-pos : (k : ℕ) → 1 ≤ pow10 k
unfolding pow10
pow10-pos zero = omega arith
pow10-pos (suc k) = omega (arith, pow10-pos k)

tenth-lt : (k n : ℕ) → n < pow10 (suc k) → n / 10 < pow10 k
unfolding pow10
tenth-lt k n h = omega arith

-- The recursion ends before its fuel does: any two amounts that suffice give the same digits.
pub decimal_ends :
    (fuel fuel' n : ℕ)
    → n < pow10 (suc fuel)
    → n < pow10 (suc fuel')
    → decimal (suc fuel) n ≡ decimal (suc fuel') n
unfolding pow10
decimal_ends zero fuel' n h h' =
    decimal_small zero n (omega (arith, h)) ∙ sym (decimal_small fuel' n (omega (arith, h)))
decimal_ends (suc fuel) zero n h h' =
    decimal_small (suc fuel) n (omega (arith, h')) ∙ sym (decimal_small zero n (omega (arith, h')))
decimal_ends (suc fuel) (suc fuel') n h h' = elim (one_digit n) [
  | inl small ↦ decimal_small (suc fuel) n small ∙ sym (decimal_small (suc fuel') n small)
  | inr large ↦
      decimal_large (suc fuel) n large
      ∙ ap (λ s. s ⋆ digit (n % 10))
          (decimal_ends fuel fuel' (n / 10) (tenth-lt (suc fuel) n h) (tenth-lt (suc fuel') n h'))
      ∙ sym (decimal_large (suc fuel') n large)
]

number_after-decimal : (fuel n : ℕ) → n < pow10 fuel → number_after 0 (decimal (suc fuel) n) ≡ n
unfolding pow10
number_after-decimal zero n h =
    ap (number_after 0) (decimal_small zero n (omega (arith, h)))
    ∙ number_after-digit 0 n (omega (arith, h))
    ∙ omega arith
number_after-decimal (suc fuel) n h = elim (one_digit n) [
  | inl small ↦
      ap (number_after 0) (decimal_small (suc fuel) n small)
      ∙ number_after-digit 0 n small
      ∙ omega arith
  | inr large ↦
      ap (number_after 0) (decimal_large (suc fuel) n large)
      ∙ number_after-append 0 (decimal (suc fuel) (n / 10)) (digit (n % 10))
      ∙ ap (λ m. number_after m (digit (n % 10)))
          (number_after-decimal fuel (n / 10) (tenth-lt fuel n h))
      ∙ number_after-digit (n / 10) (n % 10) (omega arith)
      ∙ omega arith
]

count-decimal_small : (fuel n : ℕ) → n < 10 → count (decimal (suc fuel) n) ≡ 1
count-decimal_small fuel n h = ap count (decimal_small fuel n h) ∙ count-digit n h

-- A number below a power of ten has at most as many digits, on any fuel.
count-decimal : (fuel k n : ℕ) → n < pow10 (suc k) → count (decimal fuel n) ≤ suc k
unfolding pow10 decimal
count-decimal zero k n h = omega arith
count-decimal (suc fuel) zero n h = omega (arith, count-decimal_small fuel n (omega (arith, h)))
count-decimal (suc fuel) (suc k) n h = elim (one_digit n) [
  | inl small ↦ omega (arith, count-decimal_small fuel n small)
  | inr large ↦ omega (
    arith,
    ap count (decimal_large fuel n large),
    length-append (decimal fuel (n / 10)) (digit (n % 10)),
    count-digit (n % 10) (omega arith),
    count-decimal fuel k (n / 10) (tenth-lt (suc k) n h),
  )
]

number_after-zeros : (k : ℕ) (s : String) → number_after 0 (zeros k ⋆ s) ≡ number_after 0 s
unfolding zeros number_after
number_after-zeros zero s = ap (number_after 0) (nil-append s)
number_after-zeros (suc k) s =
    ap (number_after 0) (append_assoc "0" (zeros k) s)
    ∙ number_after-append 0 "0" (zeros k ⋆ s)
    ∙ number_after-zeros k s

count-zeros : (k : ℕ) → count (zeros k) ≡ k
unfolding zeros
count-zeros zero = refl
count-zeros (suc k) = length-append "0" (zeros k) ∙ omega (arith, count-zeros k)

-- The code of a draw below a million has six characters.
pub six_digits_long : (n : ℕ) → n < 1000000 → count (six_digits n) ≡ 6
unfolding six_digits pad_start pow10
six_digits_long n h =
    length-append (zeros (6 - count (decimal 7 n))) (decimal 7 n)
    ∙ omega (arith, count-zeros (6 - count (decimal 7 n)), count-decimal 7 5 n (omega (arith, h)))

-- The code of a draw below a million reads back as the draw, so no two draws share a code.
pub number_after-six_digits : (n : ℕ) → n < 1000000 → number_after 0 (six_digits n) ≡ n
unfolding six_digits pad_start pow10
number_after-six_digits n h =
    number_after-zeros (6 - count (decimal 7 n)) (decimal 7 n)
    ∙ number_after-decimal 6 n (omega (arith, h))
