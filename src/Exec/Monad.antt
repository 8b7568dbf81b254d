-- ===== src/Exec/Monad.antt =====
-- The exceptions, and the monad of handlers over a state `S`.
use mathlib.Core.Bool.{Bool, true, false}
use mathlib.Core.List.{List, [], ◌∷◌}
use mathlib.Core.Option.{Option, none, some}
use Prim.Native.String.{String}
use text.Mathlib.Text.{◌==◌}
use idp_be.Prelude.{if◌then◌else◌}

-- src/oauth/types/authorizationError.type.ts
pub data AuthorizeError : Type 0 where
  invalid_request unauthorized_client access_denied unsupported_response_type : AuthorizeError
  invalid_scope server_error temporarily_unavailable : AuthorizeError

-- src/oauth/types/tokenError.type.ts
pub data TokenError : Type 0 where
  invalid_request invalid_client invalid_grant : TokenError
  unauthorized_client unsupported_grant_type invalid_scope : TokenError

-- The codes of `PrismaClientKnownRequestError` that the sources test for, any other code, and an
-- error that is no known request error.
pub data PrismaError : Type 0 where
  p2025 p2002 other_code unknown_error : PrismaError

pub data Exception : Type 0 where
  bad_request unauthorized forbidden not_found conflict internal : String → Exception
  oauth_authorize : AuthorizeError → Exception
  oauth_token : TokenError → Exception
  cache_not_found : String → Exception
  prisma : PrismaError → Exception
  library : String → Exception

pub data Result {ℓ} (E A : Type ℓ) : Type ℓ where
  ok : A → Result E A
  err : E → Result E A

abbrev pub Exec : Type 0 → Type 0 → Type 0
Exec S A = S → Result Exception A × S

module _ {S A : Type 0} where
  unfoldable pub pure : A → Exec S A
  pure a s = (ok a, s)

  unfoldable pub throw : Exception → Exec S A
  throw e s = (err e, s)

  unfoldable pub gets : (S → A) → Exec S A
  gets f s = (ok (f s), s)

  -- A library call that only answers: its error becomes the exception that `handler` throws.
  abbrev pub answer : {E : Type 0} → (E → Exception) → Result E A → S → Result Exception A × S
  answer handler (ok a) s = (ok a, s)
  answer handler (err e) s = (err (handler e), s)

  -- `promise.catch((error) => { throw handler(error); })`
  abbrev pub recover : (Exception → Exception) → Result Exception A × S → Result Exception A × S
  recover handler (ok a, s) = (ok a, s)
  recover handler (err e, s) = (err (handler e), s)

  unfoldable pub catch : Exec S A → (Exception → Exception) → Exec S A
  catch m handler s = recover handler (m s)

module _ {S A B : Type 0} where
  abbrev pub continue : (A → Exec S B) → Result Exception A × S → Result Exception B × S
  continue f (ok a, s) = f a s
  continue f (err e, s) = (err e, s)

  infixl 5 ◌>>=◌ ◌>>◌
  unfoldable pub ◌>>=◌ : Exec S A → (A → Exec S B) → Exec S B
  ◌>>=◌ m f s = continue f (m s)

  abbrev pub ◌>>◌ : Exec S A → Exec S B → Exec S B
  m >> n = m >>= λ _. n

module _ {S : Type 0} where
  -- `if (test) throw e;`
  unfoldable pub throw_if : Bool → Exception → Exec S (Unit {0})
  throw_if true e s = (err e, s)
  throw_if false e s = (ok tt, s)

  unfoldable pub modify : (S → S) → Exec S (Unit {0})
  modify f s = (ok tt, f s)

  -- `xs.forEach((x) => { if (test(x)) throw e; });`
  unfoldable pub for_each_throw_if :
      {A : Type 0} → List A → (A → Bool) → Exception → Exec S (Unit {0})
  for_each_throw_if [] test e s = (ok tt, s)
  for_each_throw_if (x ∷ xs) test e s =
      let rest = for_each_throw_if xs test e s in if test x then (err e, s) else rest

  -- `if (test) { body }`
  abbrev pub when : Bool → Exec S (Unit {0}) → Exec S (Unit {0})
  when true body = body
  when false body = λ s. (ok tt, s)

module _ {S A : Type 0} where
  abbrev pub present : Result Exception A × S → Result Exception (Option A) × S
  present (ok a, s) = (ok (some a), s)
  present (err e, s) = (err e, s)

  -- `let x = undefined; if (test) { x = body; }`
  unfoldable pub optional : Bool → Exec S A → Exec S (Option A)
  optional true body s = present (body s)
  optional false body s = (ok none, s)

  -- A value that may be missing, or `throw e`.
  unfoldable pub or_throw : Option A → Exception → Exec S A
  or_throw none e s = (err e, s)
  or_throw (some a) e s = (ok a, s)

module _ {S : Type 0} where
  -- `if (!s) throw e;` for an optional text, which is there afterwards.
  unfoldable pub require_text : Option String → Exception → Exec S String
  require_text none e w = (err e, w)
  require_text (some s) e w = if s == "" then (err e, w) else (ok s, w)
