-- ===== src/Requests/Codes.antt =====
-- What a code and an access token stand for, whatever requests the server answers in between.
use idp_be.Prelude.{
  ℕ, ◌+◌, ◌*◌, ◌≤◌, ◌<◌, String, ◌≡◌, sym, ap, subst, ◌∙◌, Bool, true, false, refl, ltb→lt, Option,
  none, some, ltb, arith, if◌then◌else◌,
}
use idp_be.Exec.{ok}
use idp_be.Schema.{
  User, CacheType, CachedValue, AuthorizeCache, TokenCache, authorization_type, token_type,
  user_ref_type,
}
use idp_be.Platform.{Platform, World, UserWhere}
use idp_be.Auth.Service.{
  LoginResult, login, refresh, refresh_token_prefix, refresh_token_expire_time,
}
use idp_be.Auth.Sessions.{login-IsOpened, refresh-IsRefreshed}
use idp_be.Platform.Laws.{RedisLaws}
use idp_be.Redis.{cache_key, parsed}
use idp_be.Redis.Laws.{cached, parsed-eq-some}
use idp_be.Oauth.Types.{AuthorizationReq, TokenRes, UserInfoRes}
use idp_be.Oauth.Service.{
  code_prefix, token_prefix, code_ttl, access_token_ttl, verifier_matches, authorize, code_grant,
  userinfo, user_info,
}
use idp_be.Oauth.Tokens.{next_token}
use idp_be.Oauth.Authorize.{entry_of, authorize-IsAuthorized}
use idp_be.Oauth.CodeGrant.Run.{user_token}
use idp_be.Oauth.CodeGrant.Sound.{IsRedeemed, code_grant-IsRedeemed}
use idp_be.Oauth.UserInfo.{IsUser, MayRead, with_picture_url, userinfo_answers}
use idp_be.Requests.Frame.{IsTokenKey, IsUndrawn, IsOnly}
use idp_be.Requests.Once.{code_IsTokenKey, token_IsTokenKey, session_IsTokenKey}
use idp_be.Requests.Steps.{Leads}
use idp_be.Requests.Traces.{Leads-IsOnly}

-- What reads as a `T` is `v`, and only before the expiry.
abbrev Until : {T : Type 0} → CacheType T → (v : T) → (expiry : ℕ) → ℕ → CachedValue → Type 0
Until {T} type v expiry t x = (y : T) → type.parse x ≡ some y → (y ≡ v) × (t < expiry)

some-injective : {A : Type 0} {a b : A} → some a ≡ some b → a ≡ b
some-injective e = cc

live_if :
    {T : Type 0} (b : Bool) (v y : T) → (if b then some v else none) ≡ some y → (y ≡ v) × (b ≡ true)
live_if true v y h = (cc, refl)
live_if false v y h = cc

live_until :
    {T : Type 0} (v y : T) (t expiry : ℕ)
    → (if ltb t expiry then some v else none) ≡ some y
    → (y ≡ v) × (t < expiry)
live_until v y t expiry h =
    let (same, in_time) = live_if (ltb t expiry) v y h in (same, ltb→lt t expiry in_time)

module _ {Db Cache Response : Type 0} (P : Platform Db Cache Response) (L : RedisLaws P.redis) where
  -- What a key that was written once is read as later on.
  stands_for :
      {T : Type 0} (type : CacheType T) (key prefix : String) (v y : T) (expiry : ℕ)
      (w1 w2 : World Db Cache)
      → IsTokenKey (cache_key prefix key)
      → ((t : ℕ)
          → w1.now ≤ t
          → cached P type key prefix t w1 ≡ (if ltb t expiry then some v else none))
      → IsUndrawn P (cache_key prefix key) w1.drawn
      → Leads P w1 w2
      → cached P type key prefix w2.now w2 ≡ some y
      → (y ≡ v) × (w2.now < expiry)
  stands_for {T} type key prefix v y expiry w1 w2 kind stored undrawn leads live =
      let full = cache_key prefix key in
      let before : IsOnly P (Until type v expiry) full w1 = record {
        only = λ t late x held y' shape.
            live_until v y' t expiry (sym (stored t late) ∙ ap (parsed P type) held ∙ shape);
        undrawn = undrawn;
      } in
      let after = Leads-IsOnly P L (Until type v expiry) full kind w1 w2 leads before in
      let (x, held, shape) = parsed-eq-some P type _ live in
      after.only w2.now (omega arith) x held y shape

  -- A code that an authorization has issued is redeemed only within ten minutes, only by the client
  -- it was issued for and with a verifier that answers the challenge of the request, and for the
  -- scope of the request, whatever requests the server answers in between, where no later draw
  -- gives the code once more.
  pub authorize-Leads :
      (req : AuthorizationReq) (user : User) (w w1 v v' : World Db Cache) (url : String)
      (client_id verifier : String) (res : TokenRes)
      → authorize P req user w ≡ (ok url, w1)
      → IsUndrawn P (cache_key code_prefix (next_token P w)) w1.drawn
      → Leads P w1 v
      → code_grant P client_id (next_token P w) verifier v ≡ (ok res, v')
      → (v.now < w.now + code_ttl * 1000)
        × (client_id ≡ req.client_id)
        × (verifier_matches P req.code_challenge_method verifier req.code_challenge ≡ true)
        × (res.scope ≡ req.scope)
        × IsRedeemed P client_id (next_token P w) verifier v v' res (entry_of req user)
  authorize-Leads req user w w1 v v' url client_id verifier res h undrawn leads h' =
      let (client, consent, auth) = authorize-IsAuthorized P L req user w w1 url h in
      let (entry, redeemed) =
        code_grant-IsRedeemed P L client_id (next_token P w) verifier v v' res h' in
      let (same, in_time) =
        stands_for authorization_type (next_token P w) code_prefix (entry_of req user) entry
          (w.now + code_ttl * 1000) w1 v (code_IsTokenKey (next_token P w))
          (λ t late. auth.code t (omega (arith, late, auth.on_time))) undrawn leads redeemed.live in
      let granted =
        subst (λ x. IsRedeemed P client_id (next_token P w) verifier v v' res x) same redeemed in
      (in_time, sym granted.client, granted.verified, granted.scope, granted)

  -- An access token that a redeemed code gave is answered only for three hours, with the data of
  -- the user whom the code stood for and in the scope of the code, whatever requests the server
  -- answers in between, where no later draw gives the token once more.
  pub code_grant-userinfo :
      (client_id code verifier : String) (w w1 v v' : World Db Cache) (res : TokenRes)
      (given : Option String) (info : UserInfoRes)
      → code_grant P client_id code verifier w ≡ (ok res, w1)
      → IsUndrawn P (cache_key token_prefix res.access_token) w1.drawn
      → Leads P w1 v
      → userinfo P res.access_token given v ≡ (ok info, v')
      → (entry : AuthorizeCache) × (row : User) × (cached P authorization_type code code_prefix
            w.now w
          ≡ some entry)
        × (v.now < w.now + access_token_ttl * 1000)
        × IsUser P v entry.user_uuid row
        × (info ≡ user_info P entry.scope (with_picture_url P row))
  code_grant-userinfo client_id code verifier w w1 v v' res given info h undrawn leads h' =
      let (entry, redeemed) = code_grant-IsRedeemed P L client_id code verifier w w1 res h in
      let (token, uuid, row, live, may, found, answered) =
        userinfo_answers P L res.access_token given v v' info h' in
      let (same, in_time) =
        stands_for token_type res.access_token token_prefix (user_token entry client_id) token
          (w.now + access_token_ttl * 1000) w1 v (token_IsTokenKey res.access_token)
          (λ t late. redeemed.token t (omega (arith, late, redeemed.on_time))) undrawn leads live in
      let names : some entry.user_uuid ≡ some uuid =
        subst (λ (x : TokenCache). MayRead P v x x.to given uuid) same may in
      (
        entry,
        row,
        redeemed.live,
        in_time,
        subst (λ u. IsUser P v u row) (sym (some-injective names)) found,
        answered ∙ ap (λ (x : TokenCache). user_info P x.scope (with_picture_url P row)) same,
      )

  -- A session that a login has opened is refreshed only until its expiry and only for the user who
  -- logged in, whose row it finds again, whatever requests the server answers in between, where no
  -- later draw gives the token once more.
  pub login-Leads :
      (email password : String) (w w1 v v' : World Db Cache) (opened res : LoginResult)
      → login P email password w ≡ (ok opened, w1)
      → IsUndrawn P (cache_key refresh_token_prefix opened.refresh_token) w1.drawn
      → Leads P w1 v
      → refresh P opened.refresh_token v ≡ (ok res, v')
      → (row : User) × (row' : User) × (P.prisma.users.find_unique_or_throw
            (UserWhere.by_email email)
            w.db
          ≡ ok row)
        × (P.crypto.bcrypt_compare password row.password ≡ true)
        × (v.now < w.now + refresh_token_expire_time P * 1000)
        × (P.prisma.users.find_unique_or_throw (UserWhere.by_uuid row.uuid) v.db ≡ ok row')
        × (res.access_token ≡ P.jwt.sign_subject row'.uuid v.now)
  login-Leads email password w w1 v v' opened res h undrawn leads h' =
      let (row, found, matched, session) = login-IsOpened P L email password w w1 opened h in
      let (uuid, row', renewed) = refresh-IsRefreshed P L opened.refresh_token v v' res h' in
      let (same, in_time) =
        stands_for user_ref_type opened.refresh_token refresh_token_prefix row.uuid uuid
          (w.now + refresh_token_expire_time P * 1000) w1 v
          (session_IsTokenKey opened.refresh_token)
          (λ t late. session.opened t (omega (arith, late, session.on_time))) undrawn leads
          renewed.live in
      (
        row,
        row',
        found,
        matched,
        in_time,
        subst (λ u. P.prisma.users.find_unique_or_throw (UserWhere.by_uuid u) v.db ≡ ok row') same
            renewed.row_found,
        renewed.access,
      )
