-- ===== src/Api/Bodies.antt =====
-- What the bodies go through before their endpoints: the transform of e-mail addresses in the
-- request DTOs (src/verify/dto/req.dto.ts, src/auth/dto/req.dto.ts, src/user/dto/req.dto.ts), and
-- the validators of libs/global/src/validator.
use Prim.Native.Char.{code}
use Prim.Native.String.{[], ◌∷◌, count}
use idp_be.Prelude.{
  String, Bool, true, not, Option, none, some, ◌&&◌, ◌||◌, ◌==◌, leb, if◌then◌else◌,
}
use idp_be.Exec.{Exec, Result, ok, err, Exception, bad_request, answer, ◌>>=◌, ◌>>◌, throw_if}
use idp_be.Platform.{Platform, World}
use idp_be.Random.{is_code}
use idp_be.User.Service.{Registration, ends_with}
use idp_be.Api.AuthController
use idp_be.Api.AuthController.{LoginRes}
use idp_be.Api.UserController

-- `GistEmailValidator.validate`
unfoldable pub gist_email : String → Bool
unfolding ends_with
gist_email value =
    not (value == "") && (ends_with "@gm.gist.ac.kr" value || ends_with "@gist.ac.kr" value)

unfoldable pub all_digits : String → Bool
all_digits [] = true
all_digits (c ∷ s) = leb 48 (code c) && leb (code c) 57 && all_digits s

-- `StudentIdValidator.validate`: eight digits or five
unfoldable pub student_id : String → Bool
unfolding all_digits
student_id value = all_digits value && (is_code (count value) 8 || is_code (count value) 5)

-- `body.email` of a body that the pipe has let through
abbrev written : Option String → String
written none = ""
written (some value) = value

module _ {Db Cache Response : Type 0} (P : Platform Db Cache Response) where
  -- `@Transform`, and `@IsEmail() @IsGistEmail()` on what it gives; the list of what is wrong is
  -- the library's
  unfoldable pub email_of : Option String → Result Exception String
  unfolding gist_email
  email_of none = err (bad_request "이메일 형식이 올바르지 않습니다.")
  email_of (some value) =
      if P.is_email (P.lower_case value) && gist_email (P.lower_case value)
      then ok (P.lower_case value)
      else err (bad_request "")

  -- An endpoint that is only reached with a body that passed.
  abbrev pub with_email :
      {A : Type 0} → Option String → (String → Exec (World Db Cache) A) → Exec (World Db Cache) A
  with_email raw endpoint = answer (λ e. e) (email_of raw) >>= endpoint

  unfoldable pub send_email_code : Option String → Exec (World Db Cache) (Unit {0})
  send_email_code raw = with_email raw (UserController.send_email_certification_code P)

  -- The pipe of `AuthController` has no `transform`, so it checks what `@Transform` gives and hands
  -- the address on as it was written.
  unfoldable pub login : Option String → (password : String) → Exec (World Db Cache) LoginRes
  unfolding email_of
  login raw password = do
    answer (λ e. e) (email_of raw)
    AuthController.login P (written raw) password

  -- `RegisterDto`, with the lengths and the forms of its tokens taken as checked
  unfoldable pub register : Option String → Registration → Exec (World Db Cache) (Unit {0})
  unfolding student_id
  register raw body = with_email raw λ email. do
    throw_if (not (student_id body.student_id)) (bad_request "")
    UserController.register P (record body { email = email })

  unfoldable pub issue_password : Option String → Exec (World Db Cache) (Unit {0})
  issue_password raw = with_email raw (UserController.issue_password P)
