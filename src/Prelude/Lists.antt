-- ===== src/Prelude/Lists.antt =====
-- JavaScript's array idioms over lists: `includes`, `every`, and what they say of the members.
use Prim.Native.String.{String}
use mathlib.Core.Path.{◌≡◌, refl}
use mathlib.Core.Bool.{Bool, true, false, ◌&&◌, ◌||◌}
use mathlib.Core.Option.{Option, none, some}
use mathlib.Core.List.{List, [], ◌∷◌, ◌++◌}
use native.Mathlib.Omega.{arith}
use text.Mathlib.Text.{◌==◌}
use text.Mathlib.TextEquality.{eq_iff}

-- `xs.includes(x)`
unfoldable pub includes : String → List String → Bool
includes x [] = false
includes x (y ∷ ys) = y == x || includes x ys

-- `xs.every(p)`
abbrev pub every {ℓ} : {A : Type ℓ} → (A → Bool) → List A → Bool
every p [] = true
every p (x ∷ xs) = p x && every p xs

-- `xs.filter(p)` for a Boolean test.
unfoldable pub filterb {ℓ} : {A : Type ℓ} → (A → Bool) → List A → List A
filterb p [] = []
filterb p (x ∷ xs) = let rest = filterb p xs in elim (p x) [ true ↦ x ∷ rest | false ↦ rest ]

-- `!s` for an optional text: absent or empty.
abbrev pub is_blank : Option String → Bool
is_blank none = true
is_blank (some s) = s == ""

-- Every element that `includes` finds passes a test that all elements pass.
pub every-includes :
    (p : String → Bool) (xs : List String) (x : String)
    → every p xs ≡ true
    → includes x xs ≡ true
    → p x ≡ true
unfolding includes
every-includes p [] x h m = absurd_of m
  where
    absurd_of : false ≡ true → p x ≡ true
    absurd_of e = cc
every-includes p (y ∷ ys) x h m = ground (arith, eq_iff y x, every-includes p ys x)

pub includes-filterb :
    (p : String → Bool) (xs : List String) (x : String)
    → includes x (filterb p xs) ≡ (includes x xs && p x)
unfolding includes filterb
includes-filterb p [] x = refl
includes-filterb p (y ∷ ys) x = ground (arith, eq_iff y x, includes-filterb p ys x)

pub includes-append :
    (x : String) (xs ys : List String) → includes x (xs ++ ys) ≡ (includes x xs || includes x ys)
unfolding includes
includes-append x [] ys = refl
includes-append x (z ∷ xs) ys = ground (arith, includes-append x xs ys)
