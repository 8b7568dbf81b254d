-- ===== src/Oauth/CodeGrant/Answers.antt =====
-- When `codeGrant` (src/oauth/oauth.service.ts) answers, and how it refuses.
use idp_be.Prelude.{
  String, ◌≡◌, refl, ◌∙◌, Bool, true, false, not, ◌&&◌, Option, some, includes, ◌==◌, if◌then◌else◌,
}
use idp_be.Exec.{
  ok, err, Exception, TokenError, oauth_token, throw_if, optional, pure, ok->>=, err->>=, ok-catch,
}
use idp_be.Schema.{AuthorizeCache, authorization_type, token_type}
use idp_be.Platform.{Platform, World}
use idp_be.Redis
use idp_be.Oauth.Types.{TokenRes}
use idp_be.Oauth.Service.{
  code_prefix, token_prefix, access_token_ttl, three_months, verifier_matches, issue_refresh_token,
  sign_id_token, code_grant,
}
use idp_be.Oauth.Tokens.{next_token, drawn_once, generate_opaque_token_lem}
use idp_be.Oauth.CodeGrant.Run.{user_token}

passes :
    {S : Type 0} (b : Bool) (e : Exception) (s : S) → b ≡ true → throw_if (not b) e s ≡ (ok tt, s)
unfolding throw_if
passes b e s h = rw h

stops :
    {S : Type 0} (b : Bool) (e : Exception) (s : S) → b ≡ false → throw_if (not b) e s ≡ (err e, s)
unfolding throw_if
stops b e s h = rw h

abbrev pub answer_of :
    AuthorizeCache → (access_token : String) → (refresh_token id_token : Option String) → TokenRes
answer_of entry access_token refresh_token id_token = record {
  access_token = access_token;
  token_type = "Bearer";
  expires_in = access_token_ttl;
  refresh_token = refresh_token;
  refresh_token_expires_in = some three_months;
  id_token = id_token;
  scope = entry.scope;
}

module _ {Db Cache Response : Type 0} (P : Platform Db Cache Response) where
  -- A redemption answers: where the code is found and deleted, is the client's, and the verifier
  -- answers the challenge, and where the writes of the tokens succeed, the grant returns the fresh
  -- access token with the refresh and id tokens of those steps.
  pub code_grant_answers :
      (client_id code verifier : String) (w w1 w2 w3 w4 : World Db Cache) (entry : AuthorizeCache)
      (refreshed signed : Option String)
      → Redis.get_or_throw P authorization_type code code_prefix w ≡ (ok entry, w)
      → Redis.del P code code_prefix w ≡ (ok tt, w1)
      → (entry.client_id == client_id) ≡ true
      → verifier_matches P entry.code_challenge_method verifier entry.code_challenge ≡ true
      → Redis.set P token_type
          (next_token P w1)
          (user_token entry client_id)
          token_prefix
          access_token_ttl
          (drawn_once P w1)
        ≡ (ok tt, w2)
      → optional
          (includes "offline_access" entry.scope)
          (issue_refresh_token P entry.scope entry.user_uuid entry.client_id)
          w2
        ≡ (ok refreshed, w3)
      → optional
          (includes "openid" entry.scope)
          (sign_id_token P entry.user_uuid entry.client_id entry.nonce entry.scope)
          w3
        ≡ (ok signed, w4)
      → code_grant P client_id code verifier w
        ≡ (ok (answer_of entry (next_token P w1) refreshed signed), w4)
  unfolding code_grant pure
  code_grant_answers client_id code verifier w w1 w2 w3 w4 entry refreshed signed found deleted
        client_ok verified stored refresh sign =
      ok->>= _ _ w (ok-catch _ _ w found)
      ∙ ok->>= _ _ w deleted
      ∙ ok->>= _ _ w1 (passes _ _ w1 client_ok)
      ∙ ok->>= _ _ w1 (passes _ _ w1 verified)
      ∙ ok->>= _ _ w1 (generate_opaque_token_lem P w1)
      ∙ ok->>= _ _ (drawn_once P w1) stored
      ∙ ok->>= _ _ w2 refresh
      ∙ ok->>= _ _ w3 sign

  refuses :
      (client_ok verified : Bool) (client_id code verifier : String) (w w1 : World Db Cache)
      (entry : AuthorizeCache)
      → Redis.get_or_throw P authorization_type code code_prefix w ≡ (ok entry, w)
      → Redis.del P code code_prefix w ≡ (ok tt, w1)
      → (entry.client_id == client_id) ≡ client_ok
      → verifier_matches P entry.code_challenge_method verifier entry.code_challenge ≡ verified
      → (client_ok && verified) ≡ false
      → code_grant P client_id code verifier w ≡ (
        err (
            oauth_token
              (if client_ok then TokenError.invalid_grant else TokenError.invalid_client)),
        w1,
      )
  unfolding code_grant
  refuses true true client_id code verifier w w1 entry found deleted c v wrong = cc
  refuses true false client_id code verifier w w1 entry found deleted c v wrong =
      ok->>= _ _ w (ok-catch _ _ w found)
      ∙ ok->>= _ _ w deleted
      ∙ ok->>= _ _ w1 (passes _ _ w1 c)
      ∙ err->>= _ _ w1 (stops _ _ w1 v)
  refuses false verified client_id code verifier w w1 entry found deleted c v wrong =
      ok->>= _ _ w (ok-catch _ _ w found) ∙ ok->>= _ _ w deleted ∙ err->>= _ _ w1 (stops _ _ w1 c)

  -- A redemption is refused: where a code is found and deleted but is another client's, the error
  -- is `invalid_client`, and where the client is right but the verifier does not answer the
  -- challenge, `invalid_grant`; nothing but the deletion of the code has happened.
  pub code_grant_refuses :
      (client_id code verifier : String) (w w1 : World Db Cache) (entry : AuthorizeCache)
      → Redis.get_or_throw P authorization_type code code_prefix w ≡ (ok entry, w)
      → Redis.del P code code_prefix w ≡ (ok tt, w1)
      → ((entry.client_id == client_id)
          && verifier_matches P entry.code_challenge_method verifier entry.code_challenge)
        ≡ false
      → code_grant P client_id code verifier w ≡ (
        err (
            oauth_token (
              if entry.client_id == client_id
              then TokenError.invalid_grant
              else TokenError.invalid_client)),
        w1,
      )
  code_grant_refuses client_id code verifier w w1 entry found deleted wrong =
      refuses _ _ client_id code verifier w w1 entry found deleted refl refl wrong
