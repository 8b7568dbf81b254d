-- ===== src/Oauth/RefreshGrant/Expired.antt =====
-- A refresh token whose row has expired (src/oauth/oauth.service.ts, src/oauth/oauth.repository.ts).
use idp_be.Prelude.{String, ◌≡◌, ◌∙◌, true, false, Option, some, ◌==◌}
use idp_be.Exec.{ok, err, TokenError, oauth_token, throw_if, require_text, ok->>=, err->>=}
use idp_be.Schema.{RefreshToken}
use idp_be.Platform.{Platform, World}
use idp_be.Database.{query}
use idp_be.Oauth.Repository
use idp_be.Oauth.Repository.{is_expired}
use idp_be.Oauth.Service.{refresh_token_grant}

module _ {Db Cache Response : Type 0} (P : Platform Db Cache Response) where
  find_refuses :
      (token : String) (w : World Db Cache) (row : RefreshToken)
      → P.prisma.refresh_tokens.find_unique_or_throw token w.db ≡ ok row
      → is_expired w.now row ≡ true
      → Repository.find_refresh_token_by_token P token w
        ≡ (err (oauth_token TokenError.invalid_grant), w)
  unfolding Repository.find_refresh_token_by_token query throw_if
  find_refuses token w row found late =
      ok->>= _ _ w {a = row} {t = w} (rw found) ∙ err->>= _ _ w (rw late)

  -- A refresh with a token whose row has expired is refused with `invalid_grant`, whichever client
  -- asks, and leaves the state as it was: the expired row is not deleted.
  pub refresh_token_grant_expired :
      (client_id : Option String) (token : String) (w : World Db Cache) (row : RefreshToken)
      → (token == "") ≡ false
      → P.prisma.refresh_tokens.find_unique_or_throw token w.db ≡ ok row
      → is_expired w.now row ≡ true
      → refresh_token_grant P client_id (some token) w
        ≡ (err (oauth_token TokenError.invalid_grant), w)
  unfolding refresh_token_grant require_text
  refresh_token_grant_expired client_id token w row given found late =
      ok->>= _ _ w {a = token} {t = w} (rw given)
      ∙ err->>= _ _ w (find_refuses token w row found late)
