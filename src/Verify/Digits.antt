-- ===== src/Verify/Digits.antt =====
-- `n.toString().padStart(6, '0')`, as src/verify/verify.service.ts writes its codes.
pub mod Values
use Prim.Native.Nat.{◌/◌, ◌%◌}
use Prim.Native.String.{slice, count}
use idp_be.Prelude.{ℕ, zero, suc, ◌+◌, ◌-◌, ◌≡◌, refl, String, ◌⋆◌, ltb, if◌then◌else◌}

abbrev pub digit : ℕ → String
digit d = slice "0123456789" d (d + 1)

-- The decimal digits of a number below `10 ^ fuel`.
unfoldable pub decimal : (fuel n : ℕ) → String
decimal zero n = ""
decimal (suc fuel) n =
    let rest = decimal fuel (n / 10) in if ltb n 10 then digit n else rest ⋆ digit (n % 10)

unfoldable pub zeros : ℕ → String
zeros zero = ""
zeros (suc n) = "0" ⋆ zeros n

unfoldable pub pad_start : ℕ → String → String
unfolding zeros
pad_start width s = zeros (width - count s) ⋆ s

-- The code of a draw below 1000000, which has at most six digits.
unfoldable pub six_digits : ℕ → String
unfolding decimal pad_start
six_digits n = pad_start 6 (decimal 7 n)

six_digits_of_42 : six_digits 42 ≡ "000042"
unfolding six_digits decimal pad_start zeros
six_digits_of_42 = refl
