-- ===== src/Platform/Laws.antt =====
-- Documented behaviour of Redis and of the Prisma client. None of it says that a call succeeds.
use idp_be.Prelude.{ℕ, String, ◌≡◌, ◌≢◌, ◌+◌, ◌*◌, ◌≤◌, Option, none, some, ltb, if◌then◌else◌}
use idp_be.Exec.{Result, ok, PrismaError}
use idp_be.Platform.Types.{RedisClient, Table, Prisma, PairKey}
use idp_be.Schema.{CachedValue, UserClientRelation, Client}

-- `GET` returns what the key holds at that time. `SET` with `EX` replaces the key's value until
-- the given seconds have passed, `DEL` removes it, and neither touches another key.
pub record RedisLaws {Cache : Type 0} (r : RedisClient Cache) : Type 0 where
  pub get_reads :
      (k : String) (now : ℕ) (c : Cache) (o : Option CachedValue)
      → r.get k now c ≡ ok o
      → o ≡ r.live c now k
  pub set_self :
      (k : String) (v : CachedValue) (ttl now : ℕ) (c c' : Cache)
      → r.set k v ttl now c ≡ (ok tt, c')
      → (t : ℕ) → now ≤ t
      → r.live c' t k ≡ (if ltb t (now + ttl * 1000) then some v else none)
  pub set_other :
      (k : String) (v : CachedValue) (ttl now : ℕ) (c : Cache) (t : ℕ) (j : String)
      → k ≢ j
      → r.live (r.set k v ttl now c).1 t j ≡ r.live c t j
  pub del_self :
      (k : String) (now : ℕ) (c c' : Cache)
      → r.del k now c ≡ (ok tt, c')
      → (t : ℕ) → now ≤ t
      → r.live c' t k ≡ none
  pub del_other :
      (k : String) (now : ℕ) (c : Cache) (t : ℕ) (j : String)
      → k ≢ j
      → r.live (r.del k now c).1 t j ≡ r.live c t j
  -- A `DEL`, whether it is answered or not, brings no value to any key.
  pub del_brings_nothing :
      (k : String) (now : ℕ) (c : Cache) (t : ℕ) (j : String) (x : CachedValue)
      → r.live (r.del k now c).1 t j ≡ some x
      → r.live c t j ≡ some x

-- The calls of one Prisma model whose `where` clause is a key. The laws of `update` are for
-- changes that keep the key.
pub record TableLaws {Db Where Key Row : Type 0} (t : Table Db Where Key Row) (key : Row → Key)
    (at : Key → Where) : Type 0 where
  pub find_reads :
      (k : Key) (db : Db) (r : Row) → t.find_unique_or_throw (at k) db ≡ ok r → t.row db k ≡ some r
  pub rows_keyed : (k : Key) (db : Db) (r : Row) → t.row db k ≡ some r → key r ≡ k
  -- `create` stores the row under its own key, which no row had before.
  pub create_stores :
      (make : String → Row) (db db' : Db) (r : Row)
      → t.create make db ≡ (ok r, db')
      → (id : String) × (r ≡ make id) × (t.row db (key r) ≡ none) × (t.row db' (key r) ≡ some r)
  pub create_other :
      (make : String → Row) (db db' : Db) (r : Row)
      → t.create make db ≡ (ok r, db')
      → (k : Key) → key r ≢ k
      → t.row db' k ≡ t.row db k
  pub update_stores :
      (k : Key) (change : Row → Row) (db db' : Db) (r : Row)
      → ((x : Row) → key (change x) ≡ key x)
      → t.update (at k) change db ≡ (ok r, db')
      → (old : Row) × (t.row db k ≡ some old) × (r ≡ change old) × (t.row db' k ≡ some r)
  pub update_other :
      (k : Key) (change : Row → Row) (db db' : Db) (r : Row)
      → ((x : Row) → key (change x) ≡ key x)
      → t.update (at k) change db ≡ (ok r, db')
      → (j : Key) → k ≢ j
      → t.row db' j ≡ t.row db j
  pub delete_removes :
      (k : Key) (db db' : Db) (r : Row)
      → t.delete (at k) db ≡ (ok r, db')
      → (t.row db k ≡ some r) × (t.row db' k ≡ none)
  pub delete_other :
      (k : Key) (db db' : Db) (r : Row)
      → t.delete (at k) db ≡ (ok r, db')
      → (j : Key) → k ≢ j
      → t.row db' j ≡ t.row db j

-- The compound key of a membership.
abbrev pub relation_key : UserClientRelation → PairKey
relation_key r = record { user_uuid = r.user_uuid; client_uuid = r.client_uuid }

-- The memberships of clients: a table by compound key, the nested writes of `client.update` on it,
-- and transactions that commit where their callback returns.
pub record MembershipLaws {Db : Type 0} (p : Prisma Db) : Type 0 where
  pub table : TableLaws p.relations relation_key (λ k. k)
  pub find_unique_reads :
      (k : PairKey) (db : Db) (r : UserClientRelation)
      → p.relations.find_unique k db ≡ ok (some r)
      → p.relations.row db k ≡ some r
  pub transaction_commits :
      (body : Db → Result PrismaError (Unit {0}) × Db) (db db' : Db)
      → p.transaction body db ≡ (ok tt, db')
      → body db ≡ (ok tt, db')
  pub link_creates :
      (uuid : String) (r : UserClientRelation) (db db' : Db) (c : Client)
      → p.link_user uuid r db ≡ (ok c, db')
      → (p.relations.row db (relation_key r) ≡ none)
        × (p.relations.row db' (relation_key r) ≡ some r)
        × ((j : PairKey) → relation_key r ≢ j → p.relations.row db' j ≡ p.relations.row db j)
  pub unlink_removes :
      (uuid : String) (k : PairKey) (db db' : Db) (c : Client)
      → p.unlink_user uuid k db ≡ (ok c, db')
      → (p.relations.row db' k ≡ none)
        × ((j : PairKey) → k ≢ j → p.relations.row db' j ≡ p.relations.row db j)

-- `update` returns the row that its change made of an old one.
pub record UpdateLaws {Db Where Key Row : Type 0} (t : Table Db Where Key Row) : Type 0 where
  pub update_returns :
      (at : Where) (change : Row → Row) (db db' : Db) (r : Row)
      → t.update at change db ≡ (ok r, db')
      → (old : Row) × (r ≡ change old)
