-- ===== src/Oauth/Tokens.antt =====
-- The parts that the grants share: opaque tokens, and rows of refresh tokens.
use idp_be.Prelude.{◌+◌, ◌*◌, String, ◌≡◌, refl, none, List}
use idp_be.Exec.{ok, pure, ◌>>=◌, >>=-returns, >>=-goes_on}
use idp_be.Schema.{RefreshToken}
use idp_be.Platform.{Platform, World}
use idp_be.Database.{statement-eq-ok}
use idp_be.Oauth.Repository
use idp_be.Oauth.Repository.{max_refresh_token_age}
use idp_be.Oauth.Service.{generate_opaque_token, issue_refresh_token}

module _ {Db Cache Response : Type 0} (P : Platform Db Cache Response) where
  -- The token that the next draw gives.
  abbrev pub next_token : World Db Cache → String
  next_token w = P.crypto.base64url (P.crypto.random_bytes w.drawn 32)

  abbrev pub drawn_once : World Db Cache → World Db Cache
  drawn_once w = record w { drawn = w.drawn + 1 }

  pub generate_opaque_token_lem :
      (w : World Db Cache) → generate_opaque_token P w ≡ (ok (next_token w), drawn_once w)
  unfolding generate_opaque_token ◌>>=◌
  generate_opaque_token_lem w = refl

  -- What `createRefreshToken` writes for `issue_refresh_token`: 30 days, and no nonce.
  abbrev pub fresh_row :
      (w : World Db Cache)
      → (scopes : List String) → (user_uuid client_uuid : String) → RefreshToken
  fresh_row w scopes user_uuid client_uuid = record {
    token = next_token w;
    expires_at = w.now + max_refresh_token_age * 1000;
    nonce = none;
    scopes = scopes;
    client_uuid = client_uuid;
    user_uuid = user_uuid;
  }

  -- A refresh token that was issued is the next draw, and its row was created in one statement.
  pub issue_refresh_token-eq-ok :
      (scopes : List String) (user_uuid client_uuid : String) (w : World Db Cache) {token : String}
      {w' : World Db Cache}
      → issue_refresh_token P scopes user_uuid client_uuid w ≡ (ok token, w')
      → (token ≡ next_token w)
        × ((row : RefreshToken) × (d : Db) × (P.prisma.refresh_tokens.create
                (λ _. fresh_row w scopes user_uuid client_uuid)
                w.db
              ≡ (ok row, d))
            × (w' ≡ record w { drawn = w.drawn + 1; db = d }))
  unfolding issue_refresh_token pure Repository.create_refresh_token
  issue_refresh_token-eq-ok scopes user_uuid client_uuid w h =
      let h1 = >>=-goes_on _ _ w (generate_opaque_token_lem w) h in
      >>=-returns _ _ (drawn_once w) h1 λ row w2 e2 h2.
        let (d, made, same) = statement-eq-ok _ _ (drawn_once w) e2 in (cc, (row, d, made, cc))
