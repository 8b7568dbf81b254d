-- ===== src/Oauth/Authorize.antt =====
-- `authorize` (src/oauth/oauth.service.ts): what it checks, and the way from an authorization to
-- the tokens of its code.
use idp_be.Prelude.{
  not-eq-false, ℕ, ◌+◌, ◌*◌, ◌≤◌, ◌<◌, String, ◌≡◌, refl, sym, ap, ◌∙◌, subst, Bool, true, false,
  not, ◌&&◌, ◌||◌, none, some, arith, includes, every-includes, ltb, is_blank, if◌then◌else◌,
}
use idp_be.Exec.{ok, >>=-returns, >>=-goes_on, guard-goes_on, guards-go_on, pure-eq-ok}
use idp_be.Schema.{Client, Consent, User, AuthorizeCache, authorization_type}
use idp_be.Platform.{Platform, World, ConsentWhere, later}
use idp_be.Platform.Laws.{RedisLaws}
use idp_be.Redis.Laws.{cached, cached-set, set-eq-ok}
use idp_be.Database.{query-goes_on}
use idp_be.Client.Lookup.{IsClient, get_client_or-goes_on}
use idp_be.Oauth.Types.{AuthorizationReq, TokenRes, token_scope_list}
use idp_be.Oauth.Repository
use idp_be.Oauth.Service.{
  code_prefix, code_ttl, redirect_url, verifier_matches, authorize, code_grant,
}
use idp_be.Oauth.Tokens.{next_token, drawn_once, generate_opaque_token_lem}
use idp_be.Oauth.CodeGrant.Sound.{IsRedeemed, code_grant-IsRedeemed}

-- What a code stands for, by the request and the user.
abbrev pub entry_of : AuthorizationReq → User → AuthorizeCache
entry_of req user = record {
  client_id = req.client_id;
  user_uuid = user.uuid;
  code_challenge = req.code_challenge;
  code_challenge_method = req.code_challenge_method;
  redirect_uri = req.redirect_uri;
  scope = req.scope;
  nonce = req.nonce;
}

-- Each scope is one that the user consented to, or one for tokens.
scope_allowed : (a b : Bool) → not (not a && not b) ≡ true → (a || b) ≡ true
scope_allowed a b h = ground arith

-- A guard under a test that holds did not fire by its other half.
guard_allows : (a b : Bool) → (a && b) ≡ false → a ≡ true → b ≡ false
guard_allows a b h e = ground arith

module _ {Db Cache Response : Type 0} (P : Platform Db Cache Response) where
  -- The checks and the effect of an authorization that redirects to `url`.
  pub record IsAuthorized (req : AuthorizationReq) (user : User) (w w' : World Db Cache)
      (url : String) (client : Client) (consent : Consent) : Type 0 where
    pub is_client : IsClient P w req.client_id client
    pub is_consent :
        P.prisma.consents.find_unique_or_throw
          (ConsentWhere.pair (record { user_uuid = user.uuid; client_uuid = req.client_id }))
          w.db
        ≡ ok consent
    pub consented :
        (s : String)
        → includes s req.scope ≡ true
        → (includes s consent.scopes || includes s token_scope_list) ≡ true
    pub registered : includes req.redirect_uri client.urls ≡ true
    pub openid_allowed : includes "openid" req.scope ≡ true → client.id_token_allowed ≡ true
    pub has_nonce : includes "openid" req.scope ≡ true → is_blank req.nonce ≡ false
    pub redirected : url ≡ redirect_url P req.redirect_uri (next_token P w) req.state
    pub code :
        (t : ℕ)
        → w.now ≤ t
        → cached P authorization_type (next_token P w) code_prefix t w'
          ≡ (if ltb t (w.now + code_ttl * 1000) then some (entry_of req user) else none)
    pub on_time : w'.now ≡ w.now

  module _ (L : RedisLaws P.redis) where
    -- An authorization that redirects has found the client and the user's consent to it; each
    -- scope is consented to or a token scope, the redirect URI is one of the client's, and `openid`
    -- is only granted to a client that may have id tokens, with a nonce; the URL carries the fresh
    -- code, which for ten minutes exactly stands for the request and the user.
    pub authorize-IsAuthorized :
        (req : AuthorizationReq) (user : User) (w w' : World Db Cache) (url : String)
        → authorize P req user w ≡ (ok url, w')
        → (client : Client) × (consent : Consent) × IsAuthorized req user w w' url client consent
    unfolding authorize Repository.find_consent
    authorize-IsAuthorized req user w w' url h =
        let (client, is_client, h1) = get_client_or-goes_on P _ _ _ w h in
        let (consent, is_consent, h2) = query-goes_on _ _ _ w h1 in
        let (scopes, h3) = guards-go_on _ _ _ _ w h2 in
        let (uri, h4) = guard-goes_on _ _ _ w h3 in
        let (openid, h5) = guard-goes_on _ _ _ w h4 in
        let (with_nonce, h6) = guard-goes_on _ _ _ w h5 in
        let h7 = >>=-goes_on _ _ w (generate_opaque_token_lem P w) h6 in
        >>=-returns _ _ (drawn_once P w) h7 λ u w1 e1 h8.
          let (answered, ended) = pure-eq-ok _ w1 h8 in
          let (c, written, same) = set-eq-ok P _ _ _ _ _ _ e1 in
          (
            client,
            consent,
            record {
              is_client = is_client;
              is_consent = is_consent;
              consented = λ s m. scope_allowed _ _ (every-includes _ req.scope s scopes m);
              registered = not-eq-false _ uri;
              openid_allowed = λ e. not-eq-false _ (guard_allows _ _ openid e);
              has_nonce = guard_allows _ _ with_nonce;
              redirected = sym answered;
              code = λ t late.
                  ap (λ x. cached P authorization_type (next_token P w) code_prefix t x) (sym ended)
                  ∙ cached-set P L authorization_type (next_token P w) (entry_of req user)
                      code_prefix code_ttl (drawn_once P w) e1 refl t late;
              on_time = ap (λ (x : World Db Cache). x.now) (sym ended ∙ same);
            },
          )

    live_in_time :
        (a b : ℕ) (e e' : AuthorizeCache)
        → (if ltb a b then some e else none) ≡ some e'
        → (a < b) × (e ≡ e')
    live_in_time a b e e' h = ground arith

    -- A code that an authorization has issued, with only time in between, is redeemed only within
    -- ten minutes, only by the client it was issued for, and only with a verifier that answers the
    -- challenge of the request; the answer has the scope of the request, and the access token then
    -- stands for the user who authorized, for three hours exactly.
    pub authorize-code_grant :
        (req : AuthorizationReq) (user : User) (w w1 w2 : World Db Cache) (url : String) (ms : ℕ)
        (client_id verifier : String) (res : TokenRes)
        → authorize P req user w ≡ (ok url, w1)
        → code_grant P client_id (next_token P w) verifier (later ms w1) ≡ (ok res, w2)
        → (ms < code_ttl * 1000)
          × (client_id ≡ req.client_id)
          × (verifier_matches P req.code_challenge_method verifier req.code_challenge ≡ true)
          × (res.scope ≡ req.scope)
          × IsRedeemed P client_id
              (next_token P w)
              verifier
              (later ms w1)
              w2
              res
              (entry_of req user)
    authorize-code_grant req user w w1 w2 url ms client_id verifier res h h' =
        let (client, consent, auth) = authorize-IsAuthorized req user w w1 url h in
        let (entry, redeemed) =
          code_grant-IsRedeemed P L client_id (next_token P w) verifier (later ms w1) w2 res h' in
        let stored = auth.code (w1.now + ms) (omega (arith, auth.on_time)) in
        let (in_time, same) =
          live_in_time _ _ (entry_of req user) entry (sym stored ∙ redeemed.live) in
        let granted =
          subst (λ x. IsRedeemed P client_id (next_token P w) verifier (later ms w1) w2 res x)
            (sym same) redeemed in
        (
          omega (arith, auth.on_time, in_time),
          sym granted.client,
          granted.verified,
          granted.scope,
          granted,
        )
