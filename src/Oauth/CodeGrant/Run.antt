-- ===== src/Oauth/CodeGrant/Run.antt =====
-- `codeGrant` (src/oauth/oauth.service.ts), step by step: what a redemption that returned went
-- through.
use idp_be.Prelude.{not-eq-false, String, ◌≡◌, sym, ◌∙◌, true, some, includes, ◌==◌}
use idp_be.Exec.{ok, optional, >>=-returns, >>=-goes_on, guard-goes_on, pure-eq-ok}
use idp_be.Schema.{AuthorizeCache, TokenTo, TokenCache, authorization_type, token_type}
use idp_be.Platform.{Platform, World}
use idp_be.Platform.Laws.{RedisLaws}
use idp_be.Redis
use idp_be.Redis.Laws.{cached, read_or-goes_on}
use idp_be.Oauth.Types.{TokenRes}
use idp_be.Oauth.Service.{
  code_prefix, token_prefix, access_token_ttl, verifier_matches, issue_refresh_token, sign_id_token,
  code_grant,
}
use idp_be.Oauth.Tokens.{next_token, drawn_once, generate_opaque_token_lem}

-- The entry of the access token that a code stands for.
abbrev pub user_token : AuthorizeCache → String → TokenCache
user_token entry client_id = record {
  to = TokenTo.user;
  sub = some entry.user_uuid;
  client_id = client_id;
  scope = entry.scope;
}

module _ {Db Cache Response : Type 0} (P : Platform Db Cache Response) where
  -- The steps of a redemption that returned `res`.
  pub record CodeGrantRun (client_id code verifier : String) (w w' : World Db Cache)
      (res : TokenRes) : Type 0 where
    pub entry : AuthorizeCache
    pub found : cached P authorization_type code code_prefix w.now w ≡ some entry
    pub deleted_world : World Db Cache
    pub deleted : Redis.del P code code_prefix w ≡ (ok tt, deleted_world)
    pub same_client : (entry.client_id == client_id) ≡ true
    pub verified :
        verifier_matches P entry.code_challenge_method verifier entry.code_challenge ≡ true
    pub stored_world : World Db Cache
    pub stored :
        Redis.set P token_type
          (next_token P deleted_world)
          (user_token entry client_id)
          token_prefix
          access_token_ttl
          (drawn_once P deleted_world)
        ≡ (ok tt, stored_world)
    pub refreshed_world : World Db Cache
    pub refreshed :
        optional
          (includes "offline_access" entry.scope)
          (issue_refresh_token P entry.scope entry.user_uuid entry.client_id)
          stored_world
        ≡ (ok res.refresh_token, refreshed_world)
    pub signed :
        optional
          (includes "openid" entry.scope)
          (sign_id_token P entry.user_uuid entry.client_id entry.nonce entry.scope)
          refreshed_world
        ≡ (ok res.id_token, w')
    pub access_token : res.access_token ≡ next_token P deleted_world
    pub scope : res.scope ≡ entry.scope
    pub expires_in : res.expires_in ≡ access_token_ttl

  module _ (L : RedisLaws P.redis) where
    pub code_grant-run :
        (client_id code verifier : String) (w : World Db Cache) {res : TokenRes}
        {w' : World Db Cache}
        → code_grant P client_id code verifier w ≡ (ok res, w')
        → CodeGrantRun client_id code verifier w w' res
    unfolding code_grant
    code_grant-run client_id code verifier w {res} {w'} h =
        let (entry, found, h0) = read_or-goes_on P L authorization_type code code_prefix _ _ w h in
        >>=-returns _ _ w h0 λ u1 w1 e1 h1.
          let (client_ok, h2) = guard-goes_on _ _ _ w1 h1 in
          let (pkce_ok, h3) = guard-goes_on _ _ _ w1 h2 in
          let h4 = >>=-goes_on _ _ w1 (generate_opaque_token_lem P w1) h3 in
          >>=-returns _ _ (drawn_once P w1) h4 λ u5 w5 e5 h5. >>=-returns _ _ w5 h5 λ rt w6 e6 h6.
            >>=-returns _ _ w6 h6 λ it w7 e7 h7.
              let (answered, ended) = pure-eq-ok _ w7 h7 in
              record {
                entry = entry;
                found = found;
                deleted_world = w1;
                deleted = e1;
                same_client = not-eq-false _ client_ok;
                verified = not-eq-false _ pkce_ok;
                stored_world = w5;
                stored = e5;
                refreshed_world = w6;
                refreshed = e6 ∙ (λ i. (ok (answered i).refresh_token, w6));
                signed = e7 ∙ (λ i. (ok (answered i).id_token, ended i));
                access_token = λ i. (sym answered i).access_token;
                scope = λ i. (sym answered i).scope;
                expires_in = λ i. (sym answered i).expires_in;
              }
