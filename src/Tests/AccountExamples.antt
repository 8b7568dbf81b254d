-- ===== src/Tests/AccountExamples.antt =====
-- The theorems on sessions, verification codes and registrations, applied to the sample platform.
use idp_be.Prelude.{
  ◌+◌, ◌*◌, ◌<◌, String, ◌≡◌, ◌≢◌, refl, none, some, [], if◌then◌else◌, ◌==◌, true,
}
use idp_be.Exec.{ok}
use idp_be.Schema.{User, Authenticator}
use idp_be.Verify.Service.{is_equal_code}
use idp_be.Platform.{World, VerificationType, later}
use idp_be.Auth.Service.{LoginResult, login_result, login, refresh}
use idp_be.Auth.Sessions.{IsRefreshed, refresh-IsRefreshed}
use idp_be.Verify.Service.{code_entry, payload, send_email_code, validate_code, verification_ttl}
use idp_be.Verify.Codes.{IsUsed, next_code, validate_code-IsUsed, send_email_code-validate_code}
use idp_be.User.Service.{update_passkey, Registration, register, delete_passkey}
use idp_be.User.Registration.{IsRegistered, register-IsRegistered}
use idp_be.User.Passkeys.{passkey, update_passkey_renames, delete_passkey_removes}
use idp_be.Tests.Store.{Entries, sample_redis_laws}
use idp_be.Tests.Sample.{SampleDb, sample, sample_db, start}
use idp_be.Tests.Memberships.{authenticator_laws}
use idp_be.Tests.Runs.{runs}

abbrev email : String
email = "a@gm.gist.ac.kr"

abbrev opened : LoginResult
opened = login_result sample "alice" "t" 0

abbrev logged_in : World SampleDb Entries
logged_in = (login sample email "secret" start).1

login_runs : login sample email "secret" start ≡ (ok opened, logged_in)
unfolding runs
login_runs = refl

abbrev renewed : LoginResult
renewed = login_result sample "alice" "tt" 5

abbrev refreshed : World SampleDb Entries
refreshed = (refresh sample "t" (later 5 logged_in)).1

refresh_runs : refresh sample "t" (later 5 logged_in) ≡ (ok renewed, refreshed)
unfolding runs
refresh_runs = refl

refresh-IsRefreshed_example :
    (uuid : String) × (row : User) × IsRefreshed sample sample_redis_laws "t"
      (later 5 logged_in)
      refreshed
      renewed
      uuid
      row
refresh-IsRefreshed_example =
    refresh-IsRefreshed sample sample_redis_laws "t" (later 5 logged_in) refreshed renewed
      refresh_runs

abbrev mailed : World SampleDb Entries
mailed = (send_email_code sample email start).1

mail_runs : send_email_code sample email start ≡ (ok tt, mailed)
unfolding runs
mail_runs = refl

abbrev validated : World SampleDb Entries
validated = (validate_code sample email "000000" VerificationType.email (later 9 mailed)).1

validate_runs :
    validate_code sample email "000000" VerificationType.email (later 9 mailed)
    ≡ (ok ("verification.a@gm.gist.ac.kr"), validated)
unfolding runs
validate_runs = refl

validate_code-IsUsed_example :
    (prefix : String) × (key : String) × (stored : String) × (code_entry sample
        VerificationType.email email
      ≡ some (prefix, key))
    × IsUsed sample sample_redis_laws prefix key "000000" VerificationType.email
        (later 9 mailed)
        validated
        "verification.a@gm.gist.ac.kr"
        stored
validate_code-IsUsed_example =
    validate_code-IsUsed sample sample_redis_laws email "000000" VerificationType.email
      (later 9 mailed) validated "verification.a@gm.gist.ac.kr" validate_runs

send_email_code-validate_code_example :
    (9 < verification_ttl * 1000)
    × (is_equal_code sample "000000" (next_code sample start) ≡ true)
    × ("verification.a@gm.gist.ac.kr"
        ≡ sample.jwt.sign_verification (payload sample email VerificationType.email) (0 + 9))
send_email_code-validate_code_example =
    send_email_code-validate_code sample sample_redis_laws email "000000" start mailed validated 9
      "verification.a@gm.gist.ac.kr" refl mail_runs validate_runs

abbrev registration : Registration
registration = record {
  email = email;
  password = "new";
  name = "New";
  student_id = "20250001";
  phone_number = "01012345678";
  email_jwt = "jwt-email";
  student_id_jwt = some "jwt-student";
  phone_number_jwt = some "jwt-phone";
}

abbrev registered : World SampleDb Entries
registered = (register sample registration start).1

register_runs : register sample registration start ≡ (ok tt, registered)
unfolding runs
register_runs = refl

register-IsRegistered_example :
    (country : String) × (national : String) × IsRegistered sample registration start registered
      country national
register-IsRegistered_example =
    register-IsRegistered sample registration start registered register_runs

abbrev key : Authenticator
key = record {
  id = "key";
  name = "Phone";
  icon = none;
  public_key = [];
  counter = 0;
  user_uuid = "alice";
  login_at = none;
}

abbrev with_key : World SampleDb Entries
with_key = record start {
  db = record sample_db { authenticators = λ k. if k == "key" then some key else none };
}

abbrev renamed_key : World SampleDb Entries
renamed_key = (update_passkey sample "key" "Laptop" "alice" with_key).1

rename_runs : update_passkey sample "key" "Laptop" "alice" with_key ≡ (ok tt, renamed_key)
unfolding runs
rename_runs = refl

update_passkey_renames_example :
    (a : Authenticator) × (passkey sample authenticator_laws with_key "key" ≡ some a)
    × (a.user_uuid ≡ "alice")
    × (passkey sample authenticator_laws renamed_key "key" ≡ some (record a { name = "Laptop" }))
    × ((other : String)
        → "key" ≢ other
        → passkey sample authenticator_laws renamed_key other
          ≡ passkey sample authenticator_laws with_key other)
update_passkey_renames_example =
    update_passkey_renames sample authenticator_laws "key" "Laptop" "alice" with_key renamed_key
      rename_runs

abbrev without_key : World SampleDb Entries
without_key = (delete_passkey sample "key" "alice" with_key).1

delete_runs : delete_passkey sample "key" "alice" with_key ≡ (ok tt, without_key)
unfolding runs
delete_runs = refl

delete_passkey_removes_example :
    (a : Authenticator) × (passkey sample authenticator_laws with_key "key" ≡ some a)
    × (a.user_uuid ≡ "alice")
    × (passkey sample authenticator_laws without_key "key" ≡ none)
    × ((other : String)
        → "key" ≢ other
        → passkey sample authenticator_laws without_key other
          ≡ passkey sample authenticator_laws with_key other)
delete_passkey_removes_example =
    delete_passkey_removes sample authenticator_laws "key" "alice" with_key without_key delete_runs
