-- ===== src/Tests/ApiExamples.antt =====
-- The theorems on the HTTP surface, on the digits of codes and on the life of an authorization,
-- applied to the sample platform.
use Prim.Native.String.{count}
use idp_be.Prelude.{String, ◌≡◌, refl, none, some, [], ◌∷◌, arith}
use idp_be.Exec.{ok, pure, ◌>>=◌, AuthorizeError, oauth_authorize}
use idp_be.Schema.{owner, plain}
use idp_be.Platform.{World, VerificationType, later}
use idp_be.Oauth.Types.{AuthorizationReq, TokenRes, GrantContent}
use idp_be.Oauth.Service
use idp_be.Oauth.Service.{authorize, code_grant, redirect_url, join_words}
use idp_be.Redis.Answers.{RedisAnswers}
use idp_be.Oauth.Authorize.{entry_of}
use idp_be.Oauth.Live.{RowsAnswer, authorize_leads_to_tokens}
use idp_be.Verify.Digits.{six_digits}
use idp_be.Verify.Digits.Values.{six_digits_long}
use idp_be.Api.Http.{Credentials}
use idp_be.Api.Views.{token_body}
use idp_be.Api.Scope.{scope_list, parse_scope, parse_scope-join_words}
use idp_be.Api.Basic.{basic_header, token_takes_basic}
use idp_be.Api.ClientController
use idp_be.Api.UserController.{verify}
use idp_be.Api.Bodies.{send_email_code}
use idp_be.Api.Mailed.{mailed_code_verifies}
use idp_be.Verify.Service.{payload}
use idp_be.Api.OauthController
use idp_be.Tests.Store.{Entries, sample_redis, sample_redis_laws}
use idp_be.Tests.Sample.{SampleDb, sample, start, alice}
use idp_be.Tests.Runs.{runs}
use idp_be.Tests.ApiRuns.{api_runs}

six_digits_long_example : count (six_digits 42) ≡ 6
six_digits_long_example = six_digits_long 42 (omega arith)

parse_scope-join_words_example :
    parse_scope scope_list
      (oauth_authorize AuthorizeError.invalid_scope)
      (some (join_words ("openid" ∷ "email" ∷ [])))
    ≡ ok ("openid" ∷ "email" ∷ [])
unfolding runs api_runs
parse_scope-join_words_example =
    parse_scope-join_words scope_list (oauth_authorize AuthorizeError.invalid_scope) "openid"
      ("email" ∷ []) refl refl

token_takes_basic_example :
    OauthController.token sample
      (some (basic_header "site:client-secret"))
      (GrantContent.client_credentials (some "other") (some "wrong") (some ("email" ∷ [])))
      start
    ≡ (Service.token sample (
            GrantContent.client_credentials
              (some "site")
              (some "client-secret")
              (some ("email" ∷ [])))
          >>= λ res. pure (token_body res))
        start
unfolding runs api_runs
token_takes_basic_example =
    token_takes_basic sample "site" "client-secret" "site:client-secret"
      (GrantContent.client_credentials (some "other") (some "wrong") (some ("email" ∷ []))) start
      refl refl refl refl

abbrev as_alice : Credentials
as_alice = record {
  authorization = some "Bearer access.alice";
  access_cookie = none;
  refresh_cookie = none;
}

abbrev handed : World SampleDb Entries
handed = (ClientController.set_role sample as_alice "site" "bob" owner start).1

abbrev resigned : World SampleDb Entries
resigned = (ClientController.remove_member sample as_alice "site" "alice" (later 5 handed)).1

pub sample_answers : RedisAnswers sample_redis
sample_answers = record {
  gets = λ k now c. refl;
  sets = λ k v ttl now c. (_, refl);
  dels = λ k now c. (_, refl);
}

abbrev req : AuthorizationReq
req = record {
  client_id = "site";
  code_challenge = "verifier";
  code_challenge_method = plain;
  redirect_uri = "https://site";
  scope = "openid" ∷ "offline_access" ∷ [];
  state = some "s";
  nonce = some "n";
}

abbrev authorized : World SampleDb Entries
authorized = (authorize sample req alice start).1

authorize_runs :
    authorize sample req alice start
    ≡ (ok (redirect_url sample "https://site" "t" (some "s")), authorized)
unfolding runs
authorize_runs = refl

rows_answer : RowsAnswer sample (entry_of req alice) (later 1000 authorized)
unfolding runs
rows_answer = record {
  user = (alice, refl);
  creates = λ asked. record { row = _; after = _; created = refl; user = (alice, refl) };
}

authorize_leads_to_tokens_example :
    (res : TokenRes) × (w2 : World SampleDb Entries) × (code_grant sample "site" "t" "verifier"
        (later 1000 authorized)
      ≡ (ok res, w2))
    × (res.scope ≡ req.scope)
unfolding runs
authorize_leads_to_tokens_example =
    authorize_leads_to_tokens sample sample_redis_laws sample_answers req alice start authorized _
      "verifier" 1000 authorize_runs (omega arith) refl rows_answer

abbrev mailed : World SampleDb Entries
mailed = (send_email_code sample (some "a@gm.gist.ac.kr") start).1

mail_runs : send_email_code sample (some "a@gm.gist.ac.kr") start ≡ (ok tt, mailed)
unfolding runs api_runs
mail_runs = refl

mailed_code_verifies_example :
    (w2 : World SampleDb Entries) × (verify sample "a@gm.gist.ac.kr" "000000" VerificationType.email
        (later 1000 mailed)
      ≡ (
        ok (
            sample.jwt.sign_verification
              (payload sample "a@gm.gist.ac.kr" VerificationType.email)
              1000),
        w2,
      ))
unfolding runs
mailed_code_verifies_example =
    mailed_code_verifies sample sample_redis_laws sample_answers "a@gm.gist.ac.kr" "a@gm.gist.ac.kr"
      "000000" start mailed 1000 mail_runs (omega arith) refl refl (omega arith)
