-- ===== src/Tests/OauthExamples.antt =====
-- The theorems on the OAuth endpoints, applied to the sample platform.
use idp_be.Prelude.{String, ◌≡◌, ◌≢◌, refl, none, some, [], ◌∷◌, ◌==◌, if◌then◌else◌, includes}
use idp_be.Exec.{ok}
use idp_be.Schema.{Client, Consent, RefreshToken, AuthorizeCache, plain, s256, authorization}
use idp_be.Platform.{World}
use idp_be.Oauth.Types.{TokenRes, AuthorizationReq}
use idp_be.Oauth.Service.{
  code_grant, authorize, redirect_url, refresh_token_grant, consent, client_credentials_grant,
}
use idp_be.Oauth.CodeGrant.Sound.{IsRedeemed, code_grant-IsRedeemed}
use idp_be.Oauth.Authorize.{IsAuthorized, authorize-IsAuthorized}
use idp_be.Oauth.RefreshGrant.Rotation.{IsRotated, refresh_token_grant-IsRotated}
use idp_be.Oauth.RefreshGrant.Nonce.{code_grant-refresh_refused}
use idp_be.Oauth.Clients.{
  IsConsented, consent-IsConsented, IsGranted, client_credentials_grant-IsGranted,
}
use idp_be.Tests.Store.{Entries, sample_redis_laws}
use idp_be.Tests.Sample.{SampleDb, sample, sample_db, start, alice, refresh_token_laws}
use idp_be.Tests.Runs.{runs}

abbrev entry : AuthorizeCache
entry = record {
  client_id = "site";
  user_uuid = "alice";
  code_challenge = "sha:verifier";
  code_challenge_method = s256;
  redirect_uri = "https://site";
  scope = "openid" ∷ "email" ∷ "offline_access" ∷ [];
  nonce = some "n";
}

-- The sample after Redis has stored the code "c".
abbrev with_code : World SampleDb Entries
with_code = record start {
  cache = λ k. if k == "code:c" then some (600000, authorization entry) else none;
}

abbrev redeemed : TokenRes
redeemed = record {
  access_token = "t";
  token_type = "Bearer";
  expires_in = 10800;
  refresh_token = some "tt";
  refresh_token_expires_in = some 7776000;
  id_token = some "id.alice";
  scope = "openid" ∷ "email" ∷ "offline_access" ∷ [];
}

abbrev after_code : World SampleDb Entries
after_code = (code_grant sample "site" "c" "verifier" with_code).1

code_grant-redeems : code_grant sample "site" "c" "verifier" with_code ≡ (ok redeemed, after_code)
unfolding runs
code_grant-redeems = refl

code_grant-IsRedeemed_example :
    (e : AuthorizeCache) × IsRedeemed sample "site" "c" "verifier" with_code after_code redeemed e
code_grant-IsRedeemed_example =
    code_grant-IsRedeemed sample sample_redis_laws "site" "c" "verifier" with_code after_code
      redeemed code_grant-redeems

abbrev request : AuthorizationReq
request = record {
  client_id = "site";
  code_challenge = "verifier";
  code_challenge_method = plain;
  redirect_uri = "https://site";
  scope = "openid" ∷ "email" ∷ [];
  state = some "s";
  nonce = some "n";
}

abbrev redirection : String
redirection = redirect_url sample "https://site" "t" (some "s")

abbrev authorized : World SampleDb Entries
authorized = (authorize sample request alice start).1

authorize_runs : authorize sample request alice start ≡ (ok redirection, authorized)
unfolding runs
authorize_runs = refl

authorize-IsAuthorized_example :
    (client : Client) × (given : Consent) × IsAuthorized sample request alice start authorized
      redirection client given
authorize-IsAuthorized_example =
    authorize-IsAuthorized sample sample_redis_laws request alice start authorized redirection
      authorize_runs

abbrev old_row : RefreshToken
old_row = record {
  token = "r";
  expires_at = 1000;
  nonce = none;
  scopes = "offline_access" ∷ [];
  client_uuid = "site";
  user_uuid = "alice";
}

abbrev with_row : World SampleDb Entries
with_row = record start {
  db = record sample_db { refresh_tokens = λ k. if k == "r" then some old_row else none };
}

abbrev rotated : TokenRes
rotated = record {
  access_token = "t";
  token_type = "Bearer";
  expires_in = 10800;
  refresh_token = some "tt";
  refresh_token_expires_in = some 7776000;
  id_token = none;
  scope = "offline_access" ∷ [];
}

abbrev after_rotation : World SampleDb Entries
after_rotation = (refresh_token_grant sample (some "site") (some "r") with_row).1

refresh_runs :
    refresh_token_grant sample (some "site") (some "r") with_row ≡ (ok rotated, after_rotation)
unfolding runs
refresh_runs = refl

refresh_token_grant-IsRotated_example :
    (row : RefreshToken) × IsRotated sample (some "site") "r" with_row after_rotation rotated row
refresh_token_grant-IsRotated_example =
    refresh_token_grant-IsRotated sample refresh_token_laws (some "site") "r" with_row
      after_rotation rotated refresh_runs

code_grant-refresh_refused_example :
    refresh_token_grant sample (some "site") (some "tt") after_code ≢ (ok rotated, start)
unfolding includes
code_grant-refresh_refused_example =
    code_grant-refresh_refused sample sample_redis_laws refresh_token_laws "site" "c" "verifier"
      with_code after_code redeemed "tt" code_grant-redeems refl refl (some "site") after_code start
      rotated refl

abbrev consented : World SampleDb Entries
consented = (consent sample ("email" ∷ []) "site" alice start).1

consent_runs : consent sample ("email" ∷ []) "site" alice start ≡ (ok tt, consented)
unfolding runs
consent_runs = refl

consent-IsConsented_example :
    (client : Client) × IsConsented sample ("email" ∷ []) "site" alice start consented client
consent-IsConsented_example =
    consent-IsConsented sample ("email" ∷ []) "site" alice start consented consent_runs

abbrev for_client : TokenRes
for_client = record {
  access_token = "t";
  token_type = "Bearer";
  expires_in = 7776000;
  refresh_token = none;
  refresh_token_expires_in = none;
  id_token = none;
  scope = "email" ∷ "profile" ∷ [];
}

abbrev after_client : World SampleDb Entries
after_client =
    (client_credentials_grant sample "site" "client-secret" ("email" ∷ "profile" ∷ []) start).1

client_runs :
    client_credentials_grant sample "site" "client-secret" ("email" ∷ "profile" ∷ []) start
    ≡ (ok for_client, after_client)
unfolding runs
client_runs = refl

client_credentials_grant-IsGranted_example :
    (client : Client) × IsGranted sample "site" "client-secret"
      ("email" ∷ "profile" ∷ [])
      start
      after_client
      for_client
      client
client_credentials_grant-IsGranted_example =
    client_credentials_grant-IsGranted sample sample_redis_laws "site" "client-secret"
      ("email" ∷ "profile" ∷ []) start after_client for_client client_runs
