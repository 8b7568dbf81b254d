-- ===== src/Tests/UserInfoExamples.antt =====
-- The theorems on `userinfo` and `revoke`, applied to the sample platform.
use idp_be.Prelude.{String, ◌≡◌, refl, none, some, [], ◌∷◌, if◌then◌else◌, ◌==◌}
use idp_be.Exec.{ok}
use idp_be.Schema.{User, Consent, TokenTo, TokenCache, token, token_type}
use idp_be.Platform.{World}
use idp_be.Redis.Laws.{cached}
use idp_be.Oauth.Types.{UserInfoRes}
use idp_be.Oauth.Service.{token_prefix, user_info, userinfo}
use idp_be.Oauth.UserInfo.{
  IsUser, MayRead, with_picture_url, userinfo_answers, userinfo_ignores_consent,
}
use idp_be.Tests.Store.{Entries, sample_redis_laws}
use idp_be.Tests.Sample.{SampleDb, sample, start, alice}
use idp_be.Tests.Runs.{runs}

-- A client's token, whose scope has more than alice's consent.
abbrev client_entry : TokenCache
client_entry = record {
  to = TokenTo.client;
  sub = none;
  client_id = "site";
  scope = "email" ∷ "profile" ∷ "student_id" ∷ [];
}

abbrev with_token : World SampleDb Entries
with_token = record start {
  cache = λ k. if k == "token:x" then some (600000, token client_entry) else none;
}

abbrev info : UserInfoRes
info = user_info sample client_entry.scope (with_picture_url sample alice)

userinfo_runs : userinfo sample "x" (some "alice") with_token ≡ (ok info, with_token)
unfolding runs
userinfo_runs = refl

userinfo_answers_example :
    (entry : TokenCache) × (uuid : String) × (row : User) × (cached sample token_type "x"
        token_prefix 0 with_token
      ≡ some entry)
    × MayRead sample with_token entry entry.to (some "alice") uuid
    × IsUser sample with_token uuid row
    × (info ≡ user_info sample entry.scope (with_picture_url sample row))
userinfo_answers_example =
    userinfo_answers sample sample_redis_laws "x" (some "alice") with_token with_token info
      userinfo_runs

abbrev alice_consent : Consent
alice_consent = record {
  client_uuid = "site";
  user_uuid = "alice";
  scopes = "email" ∷ "profile" ∷ [];
}

userinfo_ignores_consent_example :
    (res : UserInfoRes) × (userinfo sample "x" (some "alice") with_token ≡ (ok res, with_token))
    × (res.student_id ≡ some "20250001")
unfolding runs
userinfo_ignores_consent_example =
    userinfo_ignores_consent sample "x" "alice" with_token client_entry alice_consent alice refl
      refl refl refl refl refl refl refl
