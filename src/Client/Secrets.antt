-- ===== src/Client/Secrets.antt =====
-- `registerClient` and `resetClientSecret` (src/client/client.service.ts): the secret that is shown
-- once, and the hash that is stored.
use idp_be.Prelude.{ℕ, ◌+◌, String, ◌≡◌, refl, sym, ap, ◌∙◌, true, false, Option, none, List, []}
use idp_be.Exec.{ok, pure, ◌>>=◌, >>=-returns, >>=-goes_on, pure-eq-ok}
use idp_be.Schema.{User, Client, owner}
use idp_be.Platform.{Platform, World, ClientWhere}
use idp_be.Database.{statement-eq-ok}
use idp_be.Random.{random_bytes, hash_password, strip_symbols}
use idp_be.Client.Repository
use idp_be.Client.Repository.{or_keep}
use idp_be.Client.Service.{generate_client_secret, register_client, reset_client_secret}

-- The row of a new client.
abbrev pub new_client :
    (name : String) → (urls : Option (List String)) → (hash id : String) → Client
new_client name urls hash id = record {
  uuid = id;
  secret = hash;
  name = name;
  picture = none;
  urls = or_keep urls [];
  delete_requested_at = none;
  id_token_allowed = false;
  scopes = [];
  optional_scopes = [];
}

module _ {Db Cache Response : Type 0} (P : Platform Db Cache Response) where
  -- The secret and the hash that the next draws give.
  abbrev pub next_secret : World Db Cache → String
  next_secret w = strip_symbols (P.crypto.base64 (P.crypto.random_bytes w.drawn 32))

  abbrev next_hash : World Db Cache → String
  next_hash w = P.crypto.bcrypt_hash (next_secret w) (w.drawn + 1)

  abbrev drawn_twice : World Db Cache → World Db Cache
  drawn_twice w = record w { drawn = w.drawn + 1 + 1 }

  generate_lem :
      (w : World Db Cache)
      → generate_client_secret P w ≡ (ok (next_secret w, next_hash w), drawn_twice w)
  unfolding generate_client_secret ◌>>=◌ pure random_bytes hash_password
  generate_lem w = refl

  module _
      (hashes : (password : String) (drawn : ℕ)
        → P.crypto.bcrypt_compare password (P.crypto.bcrypt_hash password drawn) ≡ true) where
    -- Where bcrypt accepts the hashes that it makes: a client that is registered is created with its
    -- user as the owner and with a hash that the secret in the answer matches; the answer is the
    -- created row with that secret in place of the hash.
    pub register_client_creates :
        (name : String) (urls : Option (List String)) (user : User) (w w' : World Db Cache)
        (res : Client)
        → register_client P name urls user w ≡ (ok res, w')
        → (hash : String) × (created : Client) × (P.crypto.bcrypt_compare res.secret hash ≡ true)
          × (P.prisma.create_client_linked (new_client name urls hash) user.uuid owner w.db
              ≡ (ok created, w'.db))
          × (res ≡ record created { secret = res.secret })
    unfolding register_client Repository.create_client
    register_client_creates name urls user w w' res h =
        let h1 = >>=-goes_on _ _ w (generate_lem w) h in
        >>=-returns _ _ (drawn_twice w) h1 λ created w1 e1 h2.
          let (d, made, same) = statement-eq-ok _ _ (drawn_twice w) e1 in
          let (answered, ended) = pure-eq-ok _ w1 h2 in
          let shown : next_secret w ≡ res.secret = λ i. (answered i).secret in
          (
            next_hash w,
            created,
            ap (λ s. P.crypto.bcrypt_compare s (next_hash w)) (sym shown)
                ∙ hashes (next_secret w) (w.drawn + 1),
            made ∙ (λ i. (ok created, ((sym same ∙ ended) i).db)),
            sym answered ∙ (λ i. record created { secret = shown i }),
          )

    -- Where bcrypt accepts the hashes that it makes: a reset of the secret updates the user's own
    -- client with a hash that the secret in the answer matches; the answer is the updated row with
    -- that secret in place of the hash.
    pub reset_client_secret_updates :
        (uuid : String) (user : User) (w w' : World Db Cache) (res : Client)
        → reset_client_secret P uuid user w ≡ (ok res, w')
        → (hash : String) × (updated : Client) × (P.crypto.bcrypt_compare res.secret hash ≡ true)
          × (P.prisma.clients.update
                (ClientWhere.by_uuid_and_user uuid user.uuid)
                (λ c. record c { secret = hash })
                w.db
              ≡ (ok updated, w'.db))
          × (res ≡ record updated { secret = res.secret })
    unfolding reset_client_secret Repository.update_client_secret Repository.update_own_client
    reset_client_secret_updates uuid user w w' res h =
        let h1 = >>=-goes_on _ _ w (generate_lem w) h in
        >>=-returns _ _ (drawn_twice w) h1 λ updated w1 e1 h2.
          let (d, made, same) = statement-eq-ok _ _ (drawn_twice w) e1 in
          let (answered, ended) = pure-eq-ok _ w1 h2 in
          let shown : next_secret w ≡ res.secret = λ i. (answered i).secret in
          (
            next_hash w,
            updated,
            ap (λ s. P.crypto.bcrypt_compare s (next_hash w)) (sym shown)
                ∙ hashes (next_secret w) (w.drawn + 1),
            made ∙ (λ i. (ok updated, ((sym same ∙ ended) i).db)),
            sym answered ∙ (λ i. record updated { secret = shown i }),
          )
