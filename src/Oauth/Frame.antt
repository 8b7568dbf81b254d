-- ===== src/Oauth/Frame.antt =====
-- The steps of the grants that issue no cache command leave the cache and the clock alone.
use idp_be.Prelude.{String, ◌≡◌, refl, Option, none, List}
use idp_be.Exec.Keeps.{Keeps, Keeps-pure, Keeps-bind}
use idp_be.Platform.{Platform, World}
use idp_be.Database.Keeps.{CacheOnly, Keeps-query, Keeps-statement, Keeps-random_bytes}
use idp_be.User.Repository as UserRepository
use idp_be.User.Service as UserService
use idp_be.Oauth.Repository
use idp_be.Oauth.Service.{generate_opaque_token, issue_refresh_token, sign_id_token}

-- The cache and the clock of `w` are those of `v`.
pub record SameCache {Db Cache : Type 0} (v w : World Db Cache) : Type 0 where
  pub cache : w.cache ≡ v.cache
  pub now : w.now ≡ v.now

pub SameCache-refl : {Db Cache : Type 0} (w : World Db Cache) → SameCache w w
SameCache-refl w = record { cache = refl; now = refl }

pub SameCache-CacheOnly : {Db Cache : Type 0} (v : World Db Cache) → CacheOnly (SameCache v)
SameCache-CacheOnly v = record {
  on_db = λ w d h. record { cache = h.cache; now = h.now };
  on_draw = λ w h. record { cache = h.cache; now = h.now };
  on_send = λ w s h. record { cache = h.cache; now = h.now };
}

module _ {Db Cache Response : Type 0} (P : Platform Db Cache Response) {Q : World Db Cache → Type 0}
    (c : CacheOnly Q) where
  pub Keeps-generate_opaque_token : Keeps Q (generate_opaque_token P)
  unfolding generate_opaque_token
  Keeps-generate_opaque_token = Keeps-bind _ _ (Keeps-random_bytes P 32 c) (λ bytes. Keeps-pure _)

  Keeps-create :
      (token : String) (scopes : List String) (user_uuid client_uuid : String)
      (nonce : Option String)
      → Keeps Q (Repository.create_refresh_token P token scopes user_uuid client_uuid nonce)
  unfolding Repository.create_refresh_token
  Keeps-create token scopes user_uuid client_uuid _ = record {
    after = λ w h. (Keeps-statement _ _ c).after w h;
  }

  pub Keeps-issue_refresh_token :
      (scopes : List String) (user_uuid client_uuid : String)
      → Keeps Q (issue_refresh_token P scopes user_uuid client_uuid)
  unfolding issue_refresh_token
  Keeps-issue_refresh_token scopes user_uuid client_uuid =
      Keeps-bind _ _ Keeps-generate_opaque_token
        (λ t. Keeps-bind _ _ (Keeps-create t scopes user_uuid client_uuid none) (λ _. Keeps-pure _))

  pub Keeps-find_user_by_uuid : (uuid : String) → Keeps Q (UserService.find_user_by_uuid P uuid)
  unfolding UserService.find_user_by_uuid UserRepository.find_user_by_uuid
  Keeps-find_user_by_uuid uuid = Keeps-bind _ _ (Keeps-query _ _) (λ u. Keeps-pure _)

  pub Keeps-sign_id_token :
      (sub aud : String) (nonce : Option String) (scope : List String)
      → Keeps Q (sign_id_token P sub aud nonce scope)
  unfolding sign_id_token
  Keeps-sign_id_token sub aud _ scope =
      Keeps-bind _ _ (Keeps-find_user_by_uuid sub) (λ u. record { after = λ w h. h })
