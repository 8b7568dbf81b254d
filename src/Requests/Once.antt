-- ===== src/Requests/Once.antt =====
-- What was used up or withdrawn stays so, whatever requests the server answers afterwards.
use Prim.Native.Char.{Char, code}
use Prim.Native.String.{◌∷◌}
use idp_be.Prelude.{◌≤◌, String, ◌≡◌, ◌≢◌, sym, ap, subst, ◌∙◌, Option, some, arith}
use idp_be.Exec.{Result, ok, Exception, guard-goes_on, >>=-returns}
use idp_be.Database.{query-goes_on}
use idp_be.Auth.Repository
use idp_be.Requests.Accounts.{Keeps-renew}
use idp_be.Schema.{CacheType, AuthorizeCache, authorization_type, token_type, user_ref_type}
use idp_be.Platform.{Platform, World}
use idp_be.Platform.Laws.{RedisLaws}
use idp_be.Redis
use idp_be.Redis.{cache_key}
use idp_be.Redis.Keys.{cache_key-ne_of_head}
use idp_be.Redis.{parsed}
use idp_be.Redis.Laws.{cached, parsed-eq-some, del-eq-ok, read_or-goes_on}
use idp_be.Oauth.Types.{TokenRes, UserInfoRes, access_token_hint}
use idp_be.Oauth.Service.{code_grant, revoke, userinfo, code_prefix, token_prefix}
use idp_be.Oauth.CodeGrant.Run.{code_grant-run}
use idp_be.Oauth.UserInfo.{userinfo_answers}
use idp_be.Auth.Service.{LoginResult, logout, refresh, refresh_token_prefix}
use idp_be.Auth.Sessions.{refresh-IsRefreshed}
use idp_be.Requests.Frame.{IsTokenKey, IsUndrawn, IsOnly}
use idp_be.Requests.Grants.{code_grant-IsOnly}
use idp_be.Requests.Steps.{Leads}
use idp_be.Requests.Traces.{Leads-IsOnly}

head_IsTokenKey :
    (c : Char) (prefix name : String)
    → code c ≢ b'p'
    → code c ≢ b'E'
    → code c ≢ b'P'
    → IsTokenKey (cache_key (c ∷ prefix) name)
head_IsTokenKey c prefix name no_p no_e no_capital = record {
  no_passkey = λ k. cache_key-ne_of_head _ c _ prefix k name (λ e. no_p (sym e));
  no_registration = λ k. cache_key-ne_of_head _ c _ prefix k name (λ e. no_p (sym e));
  no_email = λ k. cache_key-ne_of_head _ c _ prefix k name (λ e. no_e (sym e));
  no_phone = λ k. cache_key-ne_of_head _ c _ prefix k name (λ e. no_capital (sym e));
}

pub code_IsTokenKey : (name : String) → IsTokenKey (cache_key code_prefix name)
code_IsTokenKey name = head_IsTokenKey _ _ name (omega arith) (omega arith) (omega arith)

pub token_IsTokenKey : (name : String) → IsTokenKey (cache_key token_prefix name)
token_IsTokenKey name = head_IsTokenKey _ _ name (omega arith) (omega arith) (omega arith)

pub session_IsTokenKey : (name : String) → IsTokenKey (cache_key refresh_token_prefix name)
session_IsTokenKey name = head_IsTokenKey _ _ name (omega arith) (omega arith) (omega arith)

module _ {Db Cache Response : Type 0} (P : Platform Db Cache Response) (L : RedisLaws P.redis) where
  -- The key holds nothing, and nothing will be stored under it.
  abbrev IsDead : (full : String) → World Db Cache → Type 0
  IsDead full w = IsOnly P (λ t x. ⊥) full w

  -- A key that was deleted is dead where no later draw names it.
  del-IsDead :
      (key prefix : String) (w w1 : World Db Cache)
      → Redis.del P key prefix w ≡ (ok tt, w1)
      → IsUndrawn P (cache_key prefix key) w.drawn
      → IsDead (cache_key prefix key) w1
  del-IsDead key prefix w w1 deleted undrawn =
      let (c, removed, same) = del-eq-ok P key prefix w deleted in
      record {
        only = λ t late x held.
            let gone =
              ap (λ (x : World Db Cache). P.redis.live x.cache t (cache_key prefix key)) same
              ∙ L.del_self (cache_key prefix key) w.now w.cache c removed t
                  (subst (λ (x : World Db Cache). x.now ≤ t) same late) in
            cc (sym gone ∙ held);
        undrawn =
            subst (λ (x : World Db Cache). IsUndrawn P (cache_key prefix key) x.drawn) (sym same)
              undrawn;
      }

  -- What is dead cannot be read.
  IsDead-cached :
      {T : Type 0} (type : CacheType T) (key prefix : String) (w : World Db Cache) {v : T}
      → IsDead (cache_key prefix key) w
      → cached P type key prefix w.now w ≢ some v
  IsDead-cached type key prefix w dead e =
      let (x, held, shape) = parsed-eq-some P type _ e in dead.only w.now (omega arith) x held

  -- Once an attempt on a code has found it and Redis has deleted it, no attempt on the code is
  -- answered with tokens again, whatever requests of any client and user the server answers in
  -- between and whatever time passes, where no later draw gives the code once more.
  pub code_grant-Leads :
      (client_id code verifier : String) (w w1 v : World Db Cache) (entry : AuthorizeCache)
      → Redis.get_or_throw P authorization_type code code_prefix w ≡ (ok entry, w)
      → Redis.del P code code_prefix w ≡ (ok tt, w1)
      → IsUndrawn P (cache_key code_prefix code) w.drawn
      → Leads P (code_grant P client_id code verifier w).1 v
      → (client_id' verifier' : String) (v' : World Db Cache) (res : TokenRes)
      → code_grant P client_id' code verifier' v ≢ (ok res, v')
  code_grant-Leads client_id code verifier w w1 v entry found deleted undrawn leads client_id'
        verifier' v' res h =
      let full = cache_key code_prefix code in
      let dead =
        code_grant-IsOnly P L (λ t x. ⊥) full client_id code verifier entry w w1 found deleted
          (del-IsDead code code_prefix w w1 deleted undrawn) in
      let run = code_grant-run P L client_id' code verifier' v h in
      IsDead-cached authorization_type code code_prefix v
        (Leads-IsOnly P L (λ t x. ⊥) full (code_IsTokenKey code) _ v leads dead) run.found

  -- An access token that was revoked gives no user info again, whatever requests the server
  -- answers afterwards and whatever time passes, where no later draw gives the token once more.
  pub revoke-Leads :
      (token : String) (w w1 v : World Db Cache)
      → revoke P token (some access_token_hint) w ≡ (ok tt, w1)
      → IsUndrawn P (cache_key token_prefix token) w.drawn
      → Leads P w1 v
      → (given : Option String) (v' : World Db Cache) (res : UserInfoRes)
      → userinfo P token given v ≢ (ok res, v')
  unfolding revoke
  revoke-Leads token w w1 v h undrawn leads given v' res h' =
      let (entry, uuid, row, live, _, _, _) = userinfo_answers P L token given v v' res h' in
      IsDead-cached token_type token token_prefix v
        (Leads-IsOnly P L (λ t x. ⊥) (cache_key token_prefix token) (token_IsTokenKey token) w1 v
          leads (del-IsDead token token_prefix w w1 h undrawn))
        live

  -- After a logout no refresh with the token returns again, whatever requests the server answers
  -- afterwards and whatever time passes, where no later draw gives the token once more.
  pub logout-Leads :
      (token : String) (w w1 v : World Db Cache)
      → logout P token w ≡ (ok tt, w1)
      → IsUndrawn P (cache_key refresh_token_prefix token) w.drawn
      → Leads P w1 v
      → (v' : World Db Cache) (res : LoginResult) → refresh P token v ≢ (ok res, v')
  unfolding logout
  logout-Leads token w w1 v h undrawn leads v' res h' =
      let (uuid, row, r) = refresh-IsRefreshed P L token v v' res h' in
      IsDead-cached user_ref_type token refresh_token_prefix v
        (Leads-IsOnly P L (λ t x. ⊥) (cache_key refresh_token_prefix token)
          (session_IsTokenKey token) w1 v leads
          (del-IsDead token refresh_token_prefix w w1 h undrawn))
        r.live

  refresh-IsDead :
      (token : String) (w w1 : World Db Cache) (res : LoginResult)
      → refresh P token w ≡ (ok res, w1)
      → IsUndrawn P (cache_key refresh_token_prefix token) w.drawn
      → IsDead (cache_key refresh_token_prefix token) w1
  unfolding refresh Repository.find_user_by_uuid
  refresh-IsDead token w w1 res h undrawn =
      let (_, h1) = guard-goes_on _ _ _ w h in
      let (uuid, live, h2) =
        read_or-goes_on P L user_ref_type token refresh_token_prefix _ _ w h1 in
      let (row, read, h3) = query-goes_on _ _ _ w h2 in
      >>=-returns _ _ w h3 λ u w2 e h4.
        subst
          (λ (x : Result Exception LoginResult × World Db Cache).
            IsDead (cache_key refresh_token_prefix token) x.1)
          h4
          ((Keeps-renew P L (λ t x. ⊥) (cache_key refresh_token_prefix token)
              (session_IsTokenKey token) uuid row.uuid).after
            w2 (del-IsDead token refresh_token_prefix w w2 e undrawn))

  -- A token that a refresh has used up is refused from then on, whatever requests the server
  -- answers afterwards and whatever time passes, where no draw gives the token once more.
  pub refresh-Leads :
      (token : String) (w w1 v : World Db Cache) (res : LoginResult)
      → refresh P token w ≡ (ok res, w1)
      → IsUndrawn P (cache_key refresh_token_prefix token) w.drawn
      → Leads P w1 v
      → (v' : World Db Cache) (res' : LoginResult) → refresh P token v ≢ (ok res', v')
  refresh-Leads token w w1 v res h undrawn leads v' res' h' =
      let (uuid, row, r) = refresh-IsRefreshed P L token v v' res' h' in
      IsDead-cached user_ref_type token refresh_token_prefix v
        (Leads-IsOnly P L (λ t x. ⊥) (cache_key refresh_token_prefix token)
          (session_IsTokenKey token) w1 v leads (refresh-IsDead token w w1 res h undrawn))
        r.live
