-- ===== src/Client/Lookup.antt =====
-- `getClientByUuid` (src/client/client.service.ts) reads one row and changes nothing.
use idp_be.Prelude.{String, ◌≡◌, ◌∙◌}
use idp_be.Exec.{Exec, ok, Exception, catch, catch-eq-ok, ◌>>=◌, >>=-returns, pure-eq-ok}
use idp_be.Schema.{Client}
use idp_be.Platform.{Platform, World, ClientWhere}
use idp_be.Database.{query-goes_on}
use idp_be.Client.Repository
use idp_be.Client.Service.{with_picture_url, get_client_by_uuid}

module _ {Db Cache Response : Type 0} (P : Platform Db Cache Response) where
  -- the row that Prisma finds for the id
  abbrev pub IsClient : World Db Cache → String → Client → Type 0
  IsClient w uuid row =
      P.prisma.clients.find_unique_or_throw (ClientWhere.by_uuid uuid) w.db ≡ ok row

  get_client-eq-ok :
      (uuid : String) (w : World Db Cache) {client : Client} {w' : World Db Cache}
      → get_client_by_uuid P uuid w ≡ (ok client, w')
      → (row : Client) × IsClient w uuid row × (with_picture_url P row ≡ client) × (w ≡ w')
  unfolding get_client_by_uuid Repository.find_client_by_uuid
  get_client-eq-ok uuid w h =
      let (row, read, h1) = query-goes_on _ _ _ w h in
      let (same, still) = pure-eq-ok _ w h1 in (row, read, same, still)

  module _ {B : Type 0} where
    -- A block that returned after the lookup ran on from the same state, with the row.
    pub get_client-goes_on :
        (uuid : String) (f : Client → Exec (World Db Cache) B) (w : World Db Cache) {r : B}
        {t : World Db Cache}
        → (get_client_by_uuid P uuid >>= f) w ≡ (ok r, t)
        → (row : Client) × IsClient w uuid row × (f (with_picture_url P row) w ≡ (ok r, t))
    get_client-goes_on uuid f w {r} {t} h = >>=-returns _ _ w h λ client w1 e1 h1.
        let (row, read, same, still) = get_client-eq-ok uuid w e1 in
        (row, read, (λ i. f (same i) (still i)) ∙ h1)

    pub get_client_or-goes_on :
        (uuid : String) (handler : Exception → Exception) (f : Client → Exec (World Db Cache) B)
        (w : World Db Cache) {r : B} {t : World Db Cache}
        → (catch (get_client_by_uuid P uuid) handler >>= f) w ≡ (ok r, t)
        → (row : Client) × IsClient w uuid row × (f (with_picture_url P row) w ≡ (ok r, t))
    get_client_or-goes_on uuid handler f w {r} {t} h = >>=-returns _ _ w h λ client w1 e1 h1.
        let (row, read, same, still) = get_client-eq-ok uuid w (catch-eq-ok _ _ w e1) in
        (row, read, (λ i. f (same i) (still i)) ∙ h1)
