-- ===== src/Oauth/RefreshGrant/Rotation.antt =====
-- Refresh tokens rotate: the token that was used is gone, and its successor stands for the same.
use idp_be.Prelude.{
  ℕ, ◌+◌, ◌*◌, ◌≤◌, String, ◌≡◌, ◌≢◌, refl, sym, ap, ◌∙◌, false, Option, none, some, arith,
  includes, eq_iff, inl, inr, ltb_false→le,
}
use idp_be.Exec.{ok, optional-eq-ok, >>=-returns, pure-eq-ok}
use idp_be.Schema.{RefreshToken}
use idp_be.Platform.{Platform, World}
use idp_be.Platform.Laws.{TableLaws}
use idp_be.Redis.Laws.{set-eq-ok}
use idp_be.Database.{statement-eq-ok}
use idp_be.Oauth.Types.{TokenRes}
use idp_be.Oauth.Repository
use idp_be.Oauth.Repository.{max_refresh_token_age}
use idp_be.Oauth.Service.{issue_refresh_token, is_other_client, refresh_token_grant}
use idp_be.Oauth.Tokens.{issue_refresh_token-eq-ok}
use idp_be.Oauth.CodeGrant.Sound.{is_some, is_some-optional}
use idp_be.Oauth.RefreshGrant.Run.{RefreshRun, refresh_token_grant-run}

-- The successor of a row: 30 days from now, the same client, user and scopes, and no nonce.
abbrev pub successor : RefreshToken → (token : String) → (now : ℕ) → RefreshToken
successor row token now = record {
  token = token;
  expires_at = now + max_refresh_token_age * 1000;
  nonce = none;
  scopes = row.scopes;
  client_uuid = row.client_uuid;
  user_uuid = row.user_uuid;
}

abbrev pub token_of : RefreshToken → String
token_of r = r.token

module _ {Db Cache Response : Type 0} (P : Platform Db Cache Response) where
  abbrev pub row_of : World Db Cache → String → Option RefreshToken
  row_of w token = P.prisma.refresh_tokens.row w.db token

  same_client-eq :
      (uuid : String) (client_id : Option String)
      → is_other_client P uuid client_id ≡ false
      → client_id ≡ some uuid
  same_client-eq uuid none h = cc
  same_client-eq uuid (some c) h = ground (arith, eq_iff uuid c)

  -- What a refresh has checked of the token's row, and where it leaves the table.
  pub record IsRotated (client_id : Option String) (token : String) (w w' : World Db Cache)
      (res : TokenRes) (row : RefreshToken) : Type 0 where
    pub there : row_of w token ≡ some row
    pub in_time : w.now ≤ row.expires_at
    pub client : client_id ≡ some row.client_uuid
    pub scope : res.scope ≡ row.scopes
    pub gone : row_of w' token ≡ none
    pub offline : is_some res.refresh_token ≡ includes "offline_access" row.scopes
    pub renewed :
        (next : String)
        → res.refresh_token ≡ some next
        → row_of w' next ≡ some (successor row next w.now)

  module _ (T : TableLaws P.prisma.refresh_tokens token_of (λ k. k)) where
    delete-eq-ok :
        (token : String) (w : World Db Cache) {u : Unit {0}} {w' : World Db Cache}
        → Repository.delete_refresh_token_by_token P token w ≡ (ok u, w')
        → (row_of w' token ≡ none)
          × ((other : String) → token ≢ other → row_of w' other ≡ row_of w other)
    unfolding Repository.delete_refresh_token_by_token
    delete-eq-ok token w h = >>=-returns _ _ w h λ r w1 e1 h1.
        let (d, removed, same) = statement-eq-ok _ _ w e1 in
        let ended = same ∙ refl in
        let there = sym (pure-eq-ok tt w1 h1).1 ∙ same in
        (
          ap (λ x. row_of x token) there ∙ (T.delete_removes token w.db d r removed).1,
          λ other ne.
              ap (λ x. row_of x other) there ∙ T.delete_other token w.db d r removed other ne,
        )

    -- A row that is created is a new one.
    issued :
        (row : RefreshToken) (old : String) (w : World Db Cache) (next : String)
        (w' : World Db Cache)
        → row_of w old ≢ none
        → issue_refresh_token P row.scopes row.user_uuid row.client_uuid w ≡ (ok next, w')
        → (row_of w' next ≡ some (successor row next w.now)) × (old ≢ next)
    issued row old w next w' there h =
        let (named, (made, d, created, same)) =
          issue_refresh_token-eq-ok P row.scopes row.user_uuid row.client_uuid w h in
        let (id, shape, empty, full) = T.create_stores _ w.db d made created in
        let keyed = ap token_of shape in
        (
          ap (λ x. row_of x next) same
              ∙ ap (P.prisma.refresh_tokens.row d) (named ∙ sym keyed)
              ∙ full
              ∙ ap some (shape ∙ ap (λ t. successor row t w.now) (sym named)),
          λ e. there (ap (row_of w) (e ∙ named ∙ sym keyed) ∙ empty),
        )

    -- The token in the answer of a refresh has its row, also once the old one is deleted.
    renewed_row :
        {client_id given : Option String} {w w' : World Db Cache} {res : TokenRes}
        (run : RefreshRun P client_id given w w' res)
        → row_of run.stored_world run.token ≡ some run.row
        → (next : String) → res.refresh_token ≡ some next
        → ((other : String)
            → run.token ≢ other
            → row_of w' other ≡ row_of run.refreshed_world other)
        → run.stored_world.now ≡ w.now
        → row_of w' next ≡ some (successor run.row next w.now)
    renewed_row {w' = w'} run still next e others on_time =
        elim (optional-eq-ok _ _ run.stored_world run.refreshed) [
          | inl (_, empty, _) ↦ cc
          | inr (_, (made, full, done)) ↦
              let (stored', new) =
                issued run.row run.token run.stored_world made run.refreshed_world (λ missing. cc)
                  done in
              let named : made ≡ next = cc in
              ap (row_of w') (sym named)
              ∙ others made new
              ∙ stored'
              ∙ (λ i. some (successor run.row (named i) (on_time i)))
        ]

    -- A refresh that returns has found the row of the token, in time and of the requesting client,
    -- and answers with its scopes; afterwards the token is gone, a new one was issued exactly where
    -- the scopes have `offline_access`, and the new one has a row for 30 days with the same client,
    -- user and scopes.
    pub refresh_token_grant-IsRotated :
        (client_id : Option String) (token : String) (w w' : World Db Cache) (res : TokenRes)
        → refresh_token_grant P client_id (some token) w ≡ (ok res, w')
        → (row : RefreshToken) × IsRotated client_id token w w' res row
    refresh_token_grant-IsRotated client_id token w w' res h =
        let run = refresh_token_grant-run P client_id (some token) w h in
        let (c, written, same5) = set-eq-ok P _ _ _ _ _ _ run.stored in
        let named : token ≡ run.token = cc run.is_given in
        let there = T.find_reads run.token w.db run.row run.found in
        let still : row_of run.stored_world run.token ≡ some run.row =
          ap (λ x. row_of x run.token) same5 ∙ there in
        let (removed, others) = delete-eq-ok run.token run.refreshed_world run.deleted in
        (
          run.row,
          record {
            there = ap (row_of w) named ∙ there;
            in_time = ltb_false→le _ _ run.fresh;
            client = same_client-eq _ client_id run.same_client;
            scope = run.scope;
            gone = ap (row_of w') named ∙ removed;
            offline = is_some-optional _ _ _ run.refreshed;
            renewed = λ next e. renewed_row run still next e others (ap (λ x. x.now) same5);
          },
        )
