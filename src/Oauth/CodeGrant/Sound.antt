-- ===== src/Oauth/CodeGrant/Sound.antt =====
-- What a redemption of a code that returned has checked, and what it leaves behind.
use idp_be.Prelude.{
  ◌∙◌, ℕ, ◌+◌, ◌*◌, ◌≤◌, String, ◌≡◌, refl, sym, ap, Bool, true, false, Option, none, some, inl,
  inr, includes, ltb, if◌then◌else◌, eq_iff, subst,
}
use idp_be.Exec.{Exec, Result, ok, optional, optional-eq-ok}
use idp_be.Exec.Keeps.{Keeps-optional}
use idp_be.Schema.{AuthorizeCache, authorization_type, token_type}
use idp_be.Platform.{Platform, World}
use idp_be.Platform.Laws.{RedisLaws}
use idp_be.Redis.{cache_key, parsed}
use idp_be.Redis.Keys.{token-ne-code}
use idp_be.Redis.Laws.{cached, del-eq-ok, set-eq-ok, cached-set, cached-set_other, cached-del}
use idp_be.Oauth.Types.{TokenRes}
use idp_be.Oauth.Service.{code_prefix, token_prefix, access_token_ttl, verifier_matches, code_grant}
use idp_be.Oauth.Tokens.{next_token, drawn_once}
use idp_be.Oauth.Frame.{
  SameCache, SameCache-refl, SameCache-CacheOnly, Keeps-issue_refresh_token, Keeps-sign_id_token,
}
use idp_be.Oauth.CodeGrant.Run.{user_token, CodeGrantRun, code_grant-run}

-- whether there is a value
abbrev pub is_some : {A : Type 0} → Option A → Bool
is_some none = false
is_some (some _) = true

module _ {S A : Type 0} where
  -- An optional step that returned gave a value exactly where its test held.
  pub is_some-optional :
      (b : Bool) (m : Exec S A) (s : S) {o : Option A} {t : S}
      → optional b m s ≡ (ok o, t)
      → is_some o ≡ b
  is_some-optional b m s h = elim (optional-eq-ok b m s h) [
    | inl (off, empty, _) ↦ cc (ap is_some empty)
    | inr (on, (a, full, _)) ↦ cc (ap is_some full)
  ]

module _ {Db Cache Response : Type 0} (P : Platform Db Cache Response) where
  -- The checks and effects of a redemption, as its caller sees them.
  pub record IsRedeemed (client_id code verifier : String) (w w' : World Db Cache) (res : TokenRes)
      (entry : AuthorizeCache) : Type 0 where
    -- the code stood for `entry`, which was made for this client
    pub live : cached P authorization_type code code_prefix w.now w ≡ some entry
    pub client : entry.client_id ≡ client_id
    -- the verifier answers the challenge
    pub verified :
        verifier_matches P entry.code_challenge_method verifier entry.code_challenge ≡ true
    pub scope : res.scope ≡ entry.scope
    -- a refresh token and an id token exactly where the scope asks for them
    pub offline : is_some res.refresh_token ≡ includes "offline_access" entry.scope
    pub openid : is_some res.id_token ≡ includes "openid" entry.scope
    -- for three hours, and no longer, the access token stands for the user, client and scope
    pub token :
        (t : ℕ)
        → w.now ≤ t
        → cached P token_type res.access_token token_prefix t w' ≡ (
            if ltb t (w.now + access_token_ttl * 1000)
            then some (user_token entry client_id)
            else none)
    -- the code stands for nothing any more
    pub gone : (t : ℕ) → w.now ≤ t → cached P authorization_type code code_prefix t w' ≡ none
    pub on_time : w'.now ≡ w.now

  module _ (L : RedisLaws P.redis) {client_id code verifier : String} {w w' : World Db Cache}
      {res : TokenRes} (run : CodeGrantRun P client_id code verifier w w' res) where
    open run use {
      entry, deleted_world, deleted, stored_world, stored, refreshed_world, refreshed, signed,
    }

    -- After the access token is stored the cache does not change.
    rest_SameCache : SameCache stored_world w'
    rest_SameCache =
        let keep_refresh =
          (Keeps-optional (includes "offline_access" entry.scope) _ (
              Keeps-issue_refresh_token P (SameCache-CacheOnly stored_world) entry.scope
                entry.user_uuid entry.client_id)).after
            stored_world (SameCache-refl stored_world) in
        let keep_sign =
          (Keeps-optional (includes "openid" entry.scope) _ (
              Keeps-sign_id_token P (SameCache-CacheOnly stored_world) entry.user_uuid
                entry.client_id entry.nonce entry.scope)).after
            refreshed_world
            (subst (λ (r : Result _ (Option String) × World Db Cache). SameCache stored_world r.1)
              refreshed keep_refresh) in
        subst (λ (r : Result _ (Option String) × World Db Cache). SameCache stored_world r.1) signed
          keep_sign

    deleted_now : deleted_world.now ≡ w.now
    deleted_now =
        let (c, e, same) = del-eq-ok P code code_prefix w deleted in
        ap (λ (x : World Db Cache). x.now) same

    redeemed_now : w'.now ≡ w.now
    redeemed_now =
        let (c, e, same) = set-eq-ok P _ _ _ _ _ (drawn_once P deleted_world) stored in
        rest_SameCache.now ∙ ap (λ (x : World Db Cache). x.now) same ∙ deleted_now

    token_cached :
        (t : ℕ)
        → w.now ≤ t
        → cached P token_type res.access_token token_prefix t w' ≡ (
            if ltb t (w.now + access_token_ttl * 1000)
            then some (user_token entry client_id)
            else none)
    token_cached t late =
        rw (run.access_token, rest_SameCache.cache, ← deleted_now)
          (cached-set P L token_type (next_token P deleted_world) (user_token entry client_id)
            token_prefix access_token_ttl (drawn_once P deleted_world) stored refl t
            (subst (λ n. n ≤ t) (sym deleted_now) late))

    code_gone : (t : ℕ) → w.now ≤ t → cached P authorization_type code code_prefix t w' ≡ none
    code_gone t late =
        ap (λ c. parsed P authorization_type (P.redis.live c t (cache_key code_prefix code)))
          rest_SameCache.cache
        ∙ ap
            (λ (x : Result _ _ × World Db Cache).
              cached P authorization_type code code_prefix t x.1)
            (sym stored)
        ∙ cached-set_other P L token_type (next_token P deleted_world) (user_token entry client_id)
            token_prefix access_token_ttl (drawn_once P deleted_world) authorization_type code
            code_prefix (token-ne-code _ _) t
        ∙ cached-del P L authorization_type code code_prefix w deleted t late

  module _ (L : RedisLaws P.redis) where
    -- A redemption that returns has found the code live, for this client, with a verifier that
    -- answers the challenge; the answer has the scope of the code, a refresh token exactly with
    -- `offline_access` and an id token exactly with `openid`; and from then on the access token
    -- stands, for three hours exactly, for the user, the client and the scope of the code,
    -- and the code for nothing any more.
    pub code_grant-IsRedeemed :
        (client_id code verifier : String) (w w' : World Db Cache) (res : TokenRes)
        → code_grant P client_id code verifier w ≡ (ok res, w')
        → (entry : AuthorizeCache) × IsRedeemed client_id code verifier w w' res entry
    code_grant-IsRedeemed client_id code verifier w w' res h =
        let run = code_grant-run P L client_id code verifier w h in
        (
          run.entry,
          record {
            live = run.found;
            client = (eq_iff _ _).0 run.same_client;
            verified = run.verified;
            scope = run.scope;
            offline = is_some-optional _ _ _ run.refreshed;
            openid = is_some-optional _ _ _ run.signed;
            token = token_cached L run;
            gone = code_gone L run;
            on_time = redeemed_now L run;
          },
        )
