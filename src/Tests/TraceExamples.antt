-- ===== src/Tests/TraceExamples.antt =====
-- The theorems on sequences of requests, applied to the sample platform.
use Prim.Native.String.{[], ◌∷◌}
use idp_be.Prelude.{◌≡◌, ◌≢◌, refl, none, some, [], ◌∷◌, ◌==◌, if◌then◌else◌, ◌<◌, ◌+◌, ◌*◌, true}
use idp_be.Exec.{ok}
use idp_be.Schema.{
  AuthorizeCache, TokenTo, User, plain, s256, authorization, token, user_ref, authorization_type,
}
use idp_be.Platform.{World, UserWhere, later}
use idp_be.Redis.{cache_key}
use idp_be.Oauth.Types.{AuthorizationReq, TokenRes, UserInfoRes, GrantContent, access_token_hint}
use idp_be.Oauth.Service.{
  code_grant, revoke, userinfo, user_info, authorize, redirect_url, code_ttl, access_token_ttl,
  code_prefix, verifier_matches,
}
use idp_be.Auth.Service.{
  LoginResult, login_result, login, logout, refresh, refresh_token_expire_time,
}
use idp_be.Requests.Frame.{IsUndrawn}
use idp_be.Requests.Steps.{Request, serve, Leads, stays, then_request, then_time}
use idp_be.Requests.Once.{code_grant-Leads, revoke-Leads, logout-Leads, refresh-Leads}
use idp_be.Tests.Store.{Entries, sample_redis_laws}
use idp_be.Tests.Sample.{SampleDb, sample, start, alice}
use idp_be.Tests.Runs.{runs}
use idp_be.Tests.ApiRuns.{api_runs}
use idp_be.Requests.Codes.{authorize-Leads, code_grant-userinfo, login-Leads}
use idp_be.Oauth.Authorize.{entry_of}
use idp_be.Oauth.CodeGrant.Sound.{IsRedeemed}
use idp_be.Oauth.UserInfo.{IsUser, with_picture_url}
use idp_be.Redis.Laws.{cached}
use idp_be.Tests.Undrawn.{
  t-IsUndrawn_code, t-IsUndrawn_token, t-IsUndrawn_session, code-IsUndrawn, access-IsUndrawn,
  session-IsUndrawn,
}

-- Another user logs in, an hour passes, and the token endpoint is asked with a wrong header.
abbrev busy : World SampleDb Entries → World SampleDb Entries
busy w =
    serve sample (Request.token (some "Basic") GrantContent.other_grant)
      (later 3600000 (serve sample (Request.login "a@gm.gist.ac.kr" "secret") w))

busy-Leads : (w : World SampleDb Entries) → Leads sample w (busy w)
busy-Leads w =
    then_request (then_time (then_request stays (Request.login "a@gm.gist.ac.kr" "secret")) 3600000)
      (Request.token (some "Basic") GrantContent.other_grant)

abbrev entry : AuthorizeCache
entry = record {
  client_id = "site";
  user_uuid = "alice";
  code_challenge = "sha:verifier";
  code_challenge_method = s256;
  redirect_uri = "https://site";
  scope = "openid" ∷ "email" ∷ [];
  nonce = some "n";
}

-- The sample with a code, an access token and a session in its cache.
abbrev filled : World SampleDb Entries
filled = record start {
  cache = λ k.
      if k == "code:c"
      then some (600000, authorization entry)
      else if k == "token:a"
      then some (
        10800000,
        token (record {
          to = TokenTo.user;
          sub = some "alice";
          client_id = "site";
          scope = "email" ∷ [];
        }),
      )
      else if k == "refreshToken:s"
      then some (600000, user_ref "alice")
      else none;
}

abbrev tokens : TokenRes
tokens = record {
  access_token = "t";
  token_type = "Bearer";
  expires_in = 10800;
  refresh_token = none;
  refresh_token_expires_in = some 7776000;
  id_token = some "id.alice";
  scope = entry.scope;
}

code_grant-Leads_example :
    code_grant sample "site" "c" "verifier" (busy (code_grant sample "other" "c" "wrong" filled).1)
    ≢ (ok tokens, start)
unfolding runs
code_grant-Leads_example =
    code_grant-Leads sample sample_redis_laws "other" "c" "wrong" filled _ _ entry refl refl
      code-IsUndrawn (busy-Leads _) "site" "verifier" start tokens

abbrev revoked : World SampleDb Entries
revoked = (revoke sample "a" (some access_token_hint) filled).1

revoke_runs : revoke sample "a" (some access_token_hint) filled ≡ (ok tt, revoked)
unfolding runs
revoke_runs = refl

revoke-Leads_example :
    userinfo sample "a" none (busy revoked) ≢ (ok (user_info sample ("email" ∷ []) alice), start)
revoke-Leads_example =
    revoke-Leads sample sample_redis_laws "a" filled revoked (busy revoked) revoke_runs
      access-IsUndrawn (busy-Leads revoked) none start (user_info sample ("email" ∷ []) alice)

abbrev renewed : LoginResult
renewed = login_result sample "alice" "t" 3600000

abbrev logged_out : World SampleDb Entries
logged_out = (logout sample "s" filled).1

logout_runs : logout sample "s" filled ≡ (ok tt, logged_out)
unfolding runs
logout_runs = refl

logout-Leads_example : refresh sample "s" (busy logged_out) ≢ (ok renewed, start)
logout-Leads_example =
    logout-Leads sample sample_redis_laws "s" filled logged_out (busy logged_out) logout_runs
      session-IsUndrawn (busy-Leads logged_out) start renewed

abbrev rotated : World SampleDb Entries
rotated = (refresh sample "s" filled).1

refresh_runs : refresh sample "s" filled ≡ (ok (login_result sample "alice" "t" 0), rotated)
unfolding runs
refresh_runs = refl

refresh-Leads_example : refresh sample "s" (busy rotated) ≢ (ok renewed, start)
refresh-Leads_example =
    refresh-Leads sample sample_redis_laws "s" filled rotated (busy rotated) _ refresh_runs
      session-IsUndrawn (busy-Leads rotated) start renewed

abbrev req : AuthorizationReq
req = record {
  client_id = "site";
  code_challenge = "verifier";
  code_challenge_method = plain;
  redirect_uri = "https://site";
  scope = "openid" ∷ "email" ∷ [];
  state = some "s";
  nonce = some "n";
}

abbrev authorized : World SampleDb Entries
authorized = (authorize sample req alice start).1

authorize_runs :
    authorize sample req alice start
    ≡ (ok (redirect_url sample "https://site" "t" (some "s")), authorized)
unfolding runs
authorize_runs = refl

-- A second after an event, a user logs in.
abbrev soon : World SampleDb Entries → World SampleDb Entries
soon w = serve sample (Request.login "a@gm.gist.ac.kr" "secret") (later 1000 w)

soon-Leads : (w : World SampleDb Entries) → Leads sample w (soon w)
soon-Leads w = then_request (then_time stays 1000) (Request.login "a@gm.gist.ac.kr" "secret")

abbrev granted : TokenRes
granted = record tokens { access_token = "ttt" }

abbrev after_grant : World SampleDb Entries
after_grant = (code_grant sample "site" "t" "verifier" (soon authorized)).1

grant_runs : code_grant sample "site" "t" "verifier" (soon authorized) ≡ (ok granted, after_grant)
unfolding runs api_runs
grant_runs = refl

authorized-IsUndrawn : IsUndrawn sample (cache_key "code" "t") authorized.drawn
unfolding runs
authorized-IsUndrawn = t-IsUndrawn_code

authorize-Leads_example :
    ((soon authorized).now < code_ttl * 1000)
    × ("site" ≡ req.client_id)
    × (verifier_matches sample plain "verifier" "verifier" ≡ true)
    × (granted.scope ≡ req.scope)
    × IsRedeemed sample "site" "t" "verifier"
        (soon authorized)
        after_grant
        granted
        (entry_of req alice)
authorize-Leads_example =
    authorize-Leads sample sample_redis_laws req alice start authorized (soon authorized)
      after_grant _ "site" "verifier" granted authorize_runs authorized-IsUndrawn
      (soon-Leads authorized) grant_runs

abbrev redeemed : World SampleDb Entries
redeemed = (code_grant sample "site" "c" "verifier" filled).1

redeem_runs : code_grant sample "site" "c" "verifier" filled ≡ (ok tokens, redeemed)
unfolding runs
redeem_runs = refl

redeemed-IsUndrawn : IsUndrawn sample (cache_key "token" "t") redeemed.drawn
unfolding runs
redeemed-IsUndrawn = t-IsUndrawn_token

abbrev info : UserInfoRes
info = user_info sample entry.scope (with_picture_url sample alice)

info_runs : userinfo sample "t" none (soon redeemed) ≡ (ok info, soon redeemed)
unfolding runs api_runs
info_runs = refl

code_grant-userinfo_example :
    (e : AuthorizeCache) × (row : User) × (cached sample authorization_type "c" code_prefix 0 filled
      ≡ some e)
    × ((soon redeemed).now < access_token_ttl * 1000)
    × IsUser sample (soon redeemed) e.user_uuid row
    × (info ≡ user_info sample e.scope (with_picture_url sample row))
code_grant-userinfo_example =
    code_grant-userinfo sample sample_redis_laws "site" "c" "verifier" filled redeemed
      (soon redeemed) (soon redeemed) tokens none info redeem_runs redeemed-IsUndrawn
      (soon-Leads redeemed) info_runs

abbrev opened : LoginResult
opened = login_result sample "alice" "t" 0

abbrev logged_in : World SampleDb Entries
logged_in = (login sample "a@gm.gist.ac.kr" "secret" start).1

login_runs : login sample "a@gm.gist.ac.kr" "secret" start ≡ (ok opened, logged_in)
unfolding runs
login_runs = refl

abbrev reopened : LoginResult
reopened = login_result sample "alice" "ttt" 1000

abbrev after_refresh : World SampleDb Entries
after_refresh = (refresh sample "t" (soon logged_in)).1

reopen_runs : refresh sample "t" (soon logged_in) ≡ (ok reopened, after_refresh)
unfolding runs api_runs
reopen_runs = refl

logged_in-IsUndrawn : IsUndrawn sample (cache_key "refreshToken" "t") logged_in.drawn
unfolding runs
logged_in-IsUndrawn = t-IsUndrawn_session

login-Leads_example :
    (row : User) × (row' : User) × (sample.prisma.users.find_unique_or_throw
        (UserWhere.by_email "a@gm.gist.ac.kr")
        start.db
      ≡ ok row)
    × (sample.crypto.bcrypt_compare "secret" row.password ≡ true)
    × ((soon logged_in).now < start.now + refresh_token_expire_time sample * 1000)
    × (sample.prisma.users.find_unique_or_throw (UserWhere.by_uuid row.uuid) (soon logged_in).db
        ≡ ok row')
    × (reopened.access_token ≡ sample.jwt.sign_subject row'.uuid (soon logged_in).now)
login-Leads_example =
    login-Leads sample sample_redis_laws "a@gm.gist.ac.kr" "secret" start logged_in (soon logged_in)
      after_refresh opened reopened login_runs logged_in-IsUndrawn (soon-Leads logged_in)
      reopen_runs
