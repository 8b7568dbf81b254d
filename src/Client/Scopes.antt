-- ===== src/Client/Scopes.antt =====
-- `updateClient` (src/client/client.service.ts): optional scopes are not required ones as well.
use idp_be.Prelude.{
  String, ◌≡◌, ap, ◌∙◌, not, ◌&&◌, some, List, includes, filterb, includes-filterb,
}
use idp_be.Exec.{ok}
use idp_be.Schema.{User, Client}
use idp_be.Platform.{Platform, World}
use idp_be.Platform.Laws.{UpdateLaws}
use idp_be.Database.{statement-eq-ok}
use idp_be.Client.Repository
use idp_be.Client.Repository.{ClientChanges, apply_changes, or_keep}
use idp_be.Client.Service.{without_required, disjoint_changes, update_client}

apart :
    (d : ClientChanges) (required optional : List String) (old : Client)
    → d.scopes ≡ some required
    → d.optional_scopes ≡ some optional
    → ((apply_changes (disjoint_changes d) old).scopes ≡ required)
      × ((apply_changes (disjoint_changes d) old).optional_scopes
          ≡ filterb (λ s. not (includes s required)) optional)
apart d required optional old r o = (
  ap (λ x. or_keep x old.scopes) r,
  λ i. or_keep (without_required (o i) (r i)) old.optional_scopes,
)

module _ {Db Cache Response : Type 0} (P : Platform Db Cache Response)
    (U : UpdateLaws P.prisma.clients) where
  -- An update that gives both lists of scopes returns a client whose required scopes are those
  -- given, and whose optional scopes are exactly the given ones that are not required as well.
  pub update_client_apart :
      (uuid : String) (changes : ClientChanges) (user : User) (w w' : World Db Cache) (res : Client)
      (required optional : List String)
      → changes.scopes ≡ some required
      → changes.optional_scopes ≡ some optional
      → update_client P uuid changes user w ≡ (ok res, w')
      → (res.scopes ≡ required)
        × ((s : String)
            → includes s res.optional_scopes ≡ (includes s optional && not (includes s required)))
  unfolding update_client Repository.update_client Repository.update_own_client
  update_client_apart uuid changes user w w' res required optional r o h =
      let (d, updated, _) = statement-eq-ok _ _ w h in
      let (old, shape) = U.update_returns _ _ w.db d res updated in
      let (scopes, optionals) = apart changes required optional old r o in
      (
        ap (λ (c : Client). c.scopes) shape ∙ scopes,
        λ s.
            ap (includes s) (ap (λ (c : Client). c.optional_scopes) shape ∙ optionals)
            ∙ includes-filterb (λ x. not (includes x required)) optional s,
      )
