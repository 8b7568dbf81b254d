-- ===== src/Tests/GrantExamples.antt =====
-- The theorems on when the grants answer and refuse, applied to the sample platform.
use idp_be.Prelude.{◌↔◌, true, subst, ◌≡◌, refl, none, some, [], ◌∷◌, if◌then◌else◌, ◌==◌}
use idp_be.Exec.{ok, err, TokenError, oauth_token}
use idp_be.Schema.{AuthorizeCache, RefreshToken, plain, authorization}
use idp_be.Platform.{World}
use idp_be.Redis
use idp_be.Oauth.Service.{code_grant, refresh_token_grant}
use idp_be.Oauth.CodeGrant.Answers.{code_grant_refuses}
use idp_be.Oauth.RefreshGrant.Expired.{refresh_token_grant_expired}
use idp_be.Oauth.Service.{code_prefix, verifier_matches}
use idp_be.Oauth.Types.{TokenRes}
use idp_be.Redis.Laws.{cached}
use idp_be.Schema.{authorization_type}
use idp_be.Oauth.Live.{RowsAnswer, code_grant-answered_iff}
use idp_be.Tests.ApiExamples.{sample_answers}
use idp_be.Tests.Store.{Entries, sample_redis_laws}
use idp_be.Tests.Sample.{SampleDb, sample, sample_db, start, alice}
use idp_be.Tests.Runs.{runs}

abbrev entry : AuthorizeCache
entry = record {
  client_id = "site";
  user_uuid = "alice";
  code_challenge = "verifier";
  code_challenge_method = plain;
  redirect_uri = "https://site";
  scope = "openid" ∷ "offline_access" ∷ [];
  nonce = some "n";
}

abbrev with_code : World SampleDb Entries
with_code = record start {
  cache = λ k. if k == "code:c" then some (600000, authorization entry) else none;
}

abbrev without_code : World SampleDb Entries
without_code = (Redis.del sample "c" "code" with_code).1

abbrev answered : World SampleDb Entries
answered = (code_grant sample "site" "c" "verifier" with_code).1

rows_answer : RowsAnswer sample entry with_code
rows_answer = record {
  user = (alice, refl);
  creates = λ asked. record { row = _; after = _; created = refl; user = (alice, refl) };
}

code_holds : cached sample authorization_type "c" code_prefix 0 with_code ≡ some entry
unfolding Redis.cache_key
code_holds = refl

code_grant-answered_iff_example :
    ((res : TokenRes) × (w' : World SampleDb Entries) × (code_grant sample "site" "c" "verifier"
          with_code
        ≡ (ok res, w')))
    ↔ ((e : AuthorizeCache) × (cached sample authorization_type "c" code_prefix 0 with_code
          ≡ some e)
        × (e.client_id ≡ "site")
        × (verifier_matches sample e.code_challenge_method "verifier" e.code_challenge ≡ true))
code_grant-answered_iff_example =
    code_grant-answered_iff sample sample_redis_laws sample_answers "site" "c" "verifier" with_code
      (λ e live. subst (λ x. RowsAnswer sample x with_code) (cc (code_holds, live)) rows_answer)

code_grant_refuses_example :
    code_grant sample "site" "c" "wrong" with_code
    ≡ (err (oauth_token TokenError.invalid_grant), without_code)
unfolding runs
code_grant_refuses_example =
    code_grant_refuses sample "site" "c" "wrong" with_code without_code entry refl refl refl

abbrev expired_row : RefreshToken
expired_row = record {
  token = "r";
  expires_at = 5;
  nonce = none;
  scopes = [];
  client_uuid = "site";
  user_uuid = "alice";
}

abbrev late : World SampleDb Entries
late = record start {
  db = record sample_db { refresh_tokens = λ k. if k == "r" then some expired_row else none };
  now = 6;
}

refresh_token_grant_expired_example :
    refresh_token_grant sample (some "site") (some "r") late
    ≡ (err (oauth_token TokenError.invalid_grant), late)
refresh_token_grant_expired_example =
    refresh_token_grant_expired sample (some "site") "r" late expired_row refl refl refl
