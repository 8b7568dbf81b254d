-- ===== src/Oauth/Clients.antt =====
-- `consent` and `clientCredentialsGrant` (src/oauth/oauth.service.ts): scopes against a client's.
use idp_be.Prelude.{
  not-eq-false, not-not, ℕ, ◌+◌, ◌*◌, ◌≤◌, String, ◌≡◌, refl, sym, ap, ◌∙◌, Bool, true, not, ◌&&◌,
  ◌||◌, none, some, List, arith, includes, every-includes, includes-append, ltb, if◌then◌else◌,
}
use idp_be.Exec.{ok, >>=-returns, >>=-goes_on, guard-goes_on, guards-go_on, pure-eq-ok}
use idp_be.Schema.{Client, Consent, User, TokenTo, TokenCache, token_type}
use idp_be.Platform.{Platform, World, ConsentWhere}
use idp_be.Platform.Laws.{RedisLaws}
use idp_be.Redis.Laws.{cached, cached-set}
use idp_be.Database.{statement-eq-ok}
use idp_be.Client.Lookup.{IsClient, get_client-goes_on}
use idp_be.Oauth.Types.{TokenRes}
use idp_be.Oauth.Repository
use idp_be.Oauth.Service.{token_prefix, three_months, consent, client_credentials_grant}
use idp_be.Oauth.Tokens.{next_token, drawn_once, generate_opaque_token_lem}

one_of : (a b : Bool) → not (not a && not b) ≡ true → (a || b) ≡ true
one_of a b h = ground arith

-- The entry of an access token of a client.
abbrev pub client_token : (client_id : String) → (scope : List String) → TokenCache
client_token client_id scope = record {
  to = TokenTo.client;
  sub = none;
  client_id = client_id;
  scope = scope;
}

module _ {Db Cache Response : Type 0} (P : Platform Db Cache Response) where
  -- What a consent that was accepted satisfies, and the one write that it makes.
  pub record IsConsented (scope : List String) (client_id : String) (user : User)
      (w w' : World Db Cache) (client : Client) : Type 0 where
    pub is_client : IsClient P w client_id client
    pub offered :
        (s : String)
        → includes s scope ≡ true
        → (includes s client.scopes || includes s client.optional_scopes) ≡ true
    pub complete : (s : String) → includes s client.scopes ≡ true → includes s scope ≡ true
    pub row : Consent
    pub upserted :
        P.prisma.consents.upsert
          (ConsentWhere.pair (record { user_uuid = user.uuid; client_uuid = client_id }))
          (record { client_uuid = client_id; user_uuid = user.uuid; scopes = scope })
          (λ c. record c { scopes = scope })
          w.db
        ≡ (ok row, w'.db)

  -- A consent that is accepted names only scopes that the client requires or offers, and all that
  -- it requires; then the scopes are upserted under the user and the client.
  pub consent-IsConsented :
      (scope : List String) (client_id : String) (user : User) (w w' : World Db Cache)
      → consent P scope client_id user w ≡ (ok tt, w')
      → (client : Client) × IsConsented scope client_id user w w' client
  unfolding consent Repository.upsert_consent
  consent-IsConsented scope client_id user w w' h =
      let (client, is_client, h1) = get_client-goes_on P _ _ w h in
      let (within, h2) = guards-go_on _ _ _ _ w h1 in
      let (needed, h3) = guards-go_on _ _ _ _ w h2 in
      >>=-returns _ _ w h3 λ row w1 e1 h4.
        let (d, written, same) = statement-eq-ok _ _ w e1 in
        let ended = pure-eq-ok tt w1 h4 in
        (
          client,
          record {
            is_client = is_client;
            offered = λ s m.
                sym (includes-append s client.scopes client.optional_scopes)
                ∙ not-not _ (every-includes _ scope s within m);
            complete = λ s m. not-not _ (every-includes _ client.scopes s needed m);
            row = row;
            upserted =
                written ∙ (λ i. (ok row, ap (λ (x : World Db Cache). x.db) (sym same ∙ ended.1) i));
          },
        )

  -- What a client-credentials grant has checked, and the token that it leaves.
  pub record IsGranted (client_id client_secret : String) (scope : List String)
      (w w' : World Db Cache) (res : TokenRes) (client : Client) : Type 0 where
    pub is_client : IsClient P w client_id client
    pub secret : P.crypto.bcrypt_compare client_secret client.secret ≡ true
    pub offered :
        (s : String)
        → includes s scope ≡ true
        → (includes s client.scopes || includes s client.optional_scopes) ≡ true
    pub same_scope : res.scope ≡ scope
    pub no_refresh : res.refresh_token ≡ none
    pub no_id : res.id_token ≡ none
    pub token :
        (t : ℕ)
        → w.now ≤ t
        → cached P token_type res.access_token token_prefix t w' ≡ (
            if ltb t (w.now + three_months * 1000)
            then some (client_token client_id scope)
            else none)

  -- A client-credentials grant that returns has compared the secret with the client's hash and
  -- granted only scopes that the client requires or offers; it gives neither refresh nor id token,
  -- and the access token stands for the client and the scope for three months exactly.
  pub client_credentials_grant-IsGranted :
      (L : RedisLaws P.redis) (client_id client_secret : String) (scope : List String)
      (w w' : World Db Cache) (res : TokenRes)
      → client_credentials_grant P client_id client_secret scope w ≡ (ok res, w')
      → (client : Client) × IsGranted client_id client_secret scope w w' res client
  unfolding client_credentials_grant
  client_credentials_grant-IsGranted L client_id client_secret scope w w' res h =
      let (client, is_client, h1) = get_client-goes_on P _ _ w h in
      let (secret, h2) = guard-goes_on _ _ _ w h1 in
      let (scopes, h3) = guards-go_on _ _ _ _ w h2 in
      let h4 = >>=-goes_on _ _ w (generate_opaque_token_lem P w) h3 in
      >>=-returns _ _ (drawn_once P w) h4 λ u w1 e1 h5.
        let (answered, ended) = pure-eq-ok _ w1 h5 in
        (
          client,
          record {
            is_client = is_client;
            secret = not-eq-false _ secret;
            offered = λ s m. one_of _ _ (every-includes _ scope s scopes m);
            same_scope = λ i. (sym answered i).scope;
            no_refresh = λ i. (sym answered i).refresh_token;
            no_id = λ i. (sym answered i).id_token;
            token = λ t late.
                (λ i.
                  cached P token_type ((sym answered i).access_token) token_prefix t (sym ended i))
                ∙ cached-set P L token_type (next_token P w) (client_token client_id scope)
                    token_prefix three_months (drawn_once P w) e1 refl t late;
          },
        )
