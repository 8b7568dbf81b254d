-- ===== src/Tests/SecretExamples.antt =====
-- The theorems on passkey logins, passwords and secrets, applied to the sample platform.
use idp_be.Prelude.{
  ℕ, ◌≤◌, String, ◌⋆◌, ◌≡◌, refl, true, none, some, [], ◌∷◌, if◌then◌else◌, ◌==◌, eq_refl,
}
use idp_be.Exec.{ok}
use idp_be.Schema.{User, Client, Authenticator, owner, text, text_type}
use idp_be.Verify.Service.{is_equal_code, send_phone_code}
use idp_be.Platform.{World, UserWhere, Message, later}
use idp_be.Redis.Laws.{cached}
use idp_be.Auth.Service.{LoginResult, login_result, verify_authentication}
use idp_be.Auth.PasskeyLogin.{IsPasskeyLogin, verify_authentication-IsPasskeyLogin}
use idp_be.Verify.Service.{phone_prefix}
use idp_be.User.Service.{verify_phone_number, change_password, issue_password}
use idp_be.User.Passwords.{
  Updates, verify_phone_number-Updates, change_password-Updates, issue_password_mails,
}
use idp_be.Client.Service.{register_client}
use idp_be.Client.Secrets.{new_client, register_client_creates}
use idp_be.Tests.Store.{Entries, sample_redis_laws}
use idp_be.Tests.Sample.{SampleDb, sample, sample_db, start, alice}
use idp_be.Tests.Runs.{runs}

hashes :
    (password : String) (drawn : ℕ)
    → sample.crypto.bcrypt_compare password (sample.crypto.bcrypt_hash password drawn) ≡ true
hashes password drawn = eq_refl ("hash:" ⋆ password)

abbrev passkey_row : Authenticator
passkey_row = record {
  id = "key";
  name = "Phone";
  icon = none;
  public_key = [];
  counter = 4;
  user_uuid = "alice";
  login_at = none;
}

abbrev challenged : World SampleDb Entries
challenged = record start {
  db = record sample_db { authenticators = λ k. if k == "key" then some passkey_row else none };
  cache = λ k. if k == "passkey:k" then some (600000, text "abc") else none;
}

abbrev by_passkey : World SampleDb Entries
by_passkey = (verify_authentication sample "k" "abc" challenged).1

abbrev opened : LoginResult
opened = login_result sample "alice" "t" 0

passkey_runs : verify_authentication sample "k" "abc" challenged ≡ (ok opened, by_passkey)
unfolding runs
passkey_runs = refl

verify_authentication-IsPasskeyLogin_example :
    (challenge : String) × (a : Authenticator) × (counter : ℕ) × IsPasskeyLogin sample "k" "abc"
      challenged by_passkey opened challenge a counter
verify_authentication-IsPasskeyLogin_example =
    verify_authentication-IsPasskeyLogin sample sample_redis_laws "k" "abc" challenged by_passkey
      opened passkey_runs

abbrev texted : World SampleDb Entries
texted = record start {
  cache =
      λ k. if k == "PhoneNumberVerificationCode:010" then some (180000, text "123456") else none;
}

abbrev with_phone : World SampleDb Entries
with_phone = (verify_phone_number sample "alice" "010" "123456" texted).1

phone_runs : verify_phone_number sample "alice" "010" "123456" texted ≡ (ok tt, with_phone)
unfolding runs
phone_runs = refl

verify_phone_number-Updates_example :
    (stored : String) × (cached sample text_type "010" phone_prefix 0 texted ≡ some stored)
    × (is_equal_code sample "123456" stored ≡ true)
    × Updates sample "alice"
        (λ u. record u { phone_number = "010"; is_phone_number_verified = true })
        texted
        with_phone
    × ((t : ℕ) → 0 ≤ t → cached sample text_type "010" phone_prefix t with_phone ≡ none)
verify_phone_number-Updates_example =
    verify_phone_number-Updates sample sample_redis_laws "alice" "010" "123456" texted with_phone
      phone_runs

abbrev with_password : World SampleDb Entries
with_password = (change_password sample "new" "secret" alice start).1

password_runs : change_password sample "new" "secret" alice start ≡ (ok tt, with_password)
unfolding runs
password_runs = refl

change_password-Updates_example :
    (sample.crypto.bcrypt_compare "secret" alice.password ≡ true)
    × ((hash : String) × (sample.crypto.bcrypt_compare "new" hash ≡ true)
        × Updates sample "alice" (λ u. record u { password = hash }) start with_password)
change_password-Updates_example =
    change_password-Updates sample hashes "new" "secret" alice start with_password password_runs

abbrev issued : World SampleDb Entries
issued = (issue_password sample "a@gm.gist.ac.kr" start).1

issue_runs : issue_password sample "a@gm.gist.ac.kr" start ≡ (ok tt, issued)
unfolding runs
issue_runs = refl

issue_password_mails_example :
    (user : User) × (password : String) × (hash : String)
    × (sample.prisma.users.find_unique_or_throw (UserWhere.by_email "a@gm.gist.ac.kr") sample_db
        ≡ ok user)
    × (issued.sent
        ≡ Message.mail "a@gm.gist.ac.kr" "인포팀 계정 임시 비밀번호"
            (sample.render_temporary_password password)
          ∷ [])
    × (sample.crypto.bcrypt_compare password hash ≡ true)
    × Updates sample user.uuid (λ u. record u { password = hash }) start issued
issue_password_mails_example =
    issue_password_mails sample hashes "a@gm.gist.ac.kr" start issued issue_runs

abbrev shown : Client
shown = record (new_client "Blog" none "hash:t" "new") { secret = "t" }

abbrev with_client : World SampleDb Entries
with_client = (register_client sample "Blog" none alice start).1

register_runs : register_client sample "Blog" none alice start ≡ (ok shown, with_client)
unfolding runs
register_runs = refl

register_client_creates_example :
    (hash : String) × (created : Client) × (sample.crypto.bcrypt_compare "t" hash ≡ true)
    × (sample.prisma.create_client_linked (new_client "Blog" none hash) "alice" owner sample_db
        ≡ (ok created, with_client.db))
    × (shown ≡ record created { secret = "t" })
register_client_creates_example =
    register_client_creates sample hashes "Blog" none alice start with_client shown register_runs

abbrev sent_phone : World SampleDb Entries
sent_phone = (send_phone_code sample "010" start).1

abbrev phone_verified : World SampleDb Entries
phone_verified = (verify_phone_number sample "alice" "010" "000000" (later 1000 sent_phone)).1
