-- ===== src/Oauth/RefreshGrant/Nonce.antt =====
-- Refresh tokens are issued without a nonce, and a refresh with the scope `openid` needs one.
use idp_be.Prelude.{
  ◌+◌, String, ◌≡◌, ◌≢◌, sym, ap, ◌∙◌, true, Option, none, some, includes, inl, inr, is_blank,
}
use idp_be.Exec.{ok, optional-eq-ok}
use idp_be.Schema.{RefreshToken}
use idp_be.Platform.{Platform, World}
use idp_be.Platform.Laws.{TableLaws, RedisLaws}
use idp_be.Oauth.Types.{TokenRes}
use idp_be.Oauth.Service.{sign_refreshed_id_token, code_grant, refresh_token_grant}
use idp_be.Oauth.Tokens.{issue_refresh_token-eq-ok}
use idp_be.Oauth.CodeGrant.Run.{CodeGrantRun, code_grant-run}
use idp_be.Oauth.RefreshGrant.Run.{
  refresh_token_grant-run, sign-eq-ok, optional_sign_id_token-eq-ok,
}
use idp_be.Oauth.RefreshGrant.Rotation.{token_of, row_of}

module _ {Db Cache Response : Type 0} (P : Platform Db Cache Response) where
  -- Where the row of a token has `openid` and no nonce, no refresh with it returns.
  refuses_without_nonce :
      (T : TableLaws P.prisma.refresh_tokens token_of (λ k. k)) (client_id : Option String)
      (token : String) (row : RefreshToken) (w w' : World Db Cache) (res : TokenRes)
      → row_of P w token ≡ some row
      → row.nonce ≡ none
      → includes "openid" row.scopes ≡ true
      → refresh_token_grant P client_id (some token) w ≢ (ok res, w')
  refuses_without_nonce T client_id token row w w' res there blank openid h =
      let run = refresh_token_grant-run P client_id (some token) w h in
      let named : token ≡ run.token = cc run.is_given in
      let found = T.find_reads run.token w.db run.row run.found in
      let same : row ≡ run.row = cc (there, found) in
      elim (optional-eq-ok _ (sign_refreshed_id_token P run.row) run.refreshed_world run.signed) [
        | inl (off, _, _) ↦ cc (openid, ap (λ (r : RefreshToken). includes "openid" r.scopes) same)
        | inr (_, (t, _, signed)) ↦
            let needs = (sign-eq-ok P run.row run.refreshed_world signed).0 in
            cc (needs, ap (λ (r : RefreshToken). is_blank r.nonce) same, ap is_blank blank)
      ]

  module _ (L : RedisLaws P.redis) (T : TableLaws P.prisma.refresh_tokens token_of (λ k. k)) where
    -- The row of a refresh token that came with a code, at the end of the redemption.
    issued_row :
        {client_id code verifier : String} {w w' : World Db Cache} {res : TokenRes}
        (run : CodeGrantRun P client_id code verifier w w' res) (token : String)
        → res.refresh_token ≡ some token
        → (row : RefreshToken) × (row_of P w' token ≡ some row)
          × (row.nonce ≡ none)
          × (row.scopes ≡ run.entry.scope)
    issued_row {w' = w'} run token e = elim (optional-eq-ok _ _ run.stored_world run.refreshed) [
      | inl (_, empty, _) ↦ cc
      | inr (_, (made, full, done)) ↦
          let (named, (row, d, created, same)) =
            issue_refresh_token-eq-ok P run.entry.scope run.entry.user_uuid run.entry.client_id
              run.stored_world done in
          let (id, shape, empty, stored) = T.create_stores _ _ d row created in
          let same_token : token_of row ≡ token =
            ap token_of shape ∙ sym named ∙ cc (sym full ∙ e) in
          let unchanged : w'
              ≡ record run.stored_world { db = d; drawn = run.stored_world.drawn + 1 } =
            sym (optional_sign_id_token-eq-ok P _ _ _ _ _ run.refreshed_world run.signed) ∙ same in
          (
            row,
            ap (λ x. row_of P x token) unchanged
                ∙ ap (P.prisma.refresh_tokens.row d) (sym same_token)
                ∙ stored,
            ap (λ (r : RefreshToken). r.nonce) shape,
            ap (λ (r : RefreshToken). r.scopes) shape,
          )
    ]

    -- Where a code with `openid` was redeemed for a refresh token, no refresh with that token
    -- returns, for any client, at any later time, as long as its row stays as it was issued.
    pub code_grant-refresh_refused :
        (client_id code verifier : String) (w w' : World Db Cache) (res : TokenRes) (token : String)
        → code_grant P client_id code verifier w ≡ (ok res, w')
        → res.refresh_token ≡ some token
        → includes "openid" res.scope ≡ true
        → (client_id' : Option String) (w2 w3 : World Db Cache) (res' : TokenRes)
        → row_of P w2 token ≡ row_of P w' token
        → refresh_token_grant P client_id' (some token) w2 ≢ (ok res', w3)
    code_grant-refresh_refused client_id code verifier w w' res token h e openid client_id' w2 w3
          res' kept =
        let run = code_grant-run P L client_id code verifier w h in
        let (row, there, blank, scopes) = issued_row run token e in
        refuses_without_nonce T client_id' token row w2 w3 res' (kept ∙ there) blank
          (ap (includes "openid") (scopes ∙ sym run.scope) ∙ openid)
