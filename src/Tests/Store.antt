-- ===== src/Tests/Store.antt =====
-- A concrete Redis and concrete Prisma tables, which meet the laws: maps as functions.
use idp_be.Prelude.{
  ℕ, ◌+◌, ◌*◌, String, ◌≡◌, ◌≢◌, sym, ap, ◌∙◌, Bool, Option, none, some, [], inl, inr, ltb,
  if◌then◌else◌, ◌==◌, eq_iff, eq_refl, Bool-cases,
}
use idp_be.Exec.{Result, ok, err, PrismaError, p2025, p2002}
use idp_be.Schema.{CachedValue}
use idp_be.Platform.{RedisClient, Table}
use idp_be.Platform.Laws.{RedisLaws}

-- Each key with its expiry and its value.
abbrev pub Entries : Type 0
Entries = String → Option (ℕ × CachedValue)

abbrev pub alive : ℕ → Option (ℕ × CachedValue) → Option CachedValue
alive t none = none
alive t (some (expiry, v)) = if ltb t expiry then some v else none

abbrev pub write : String → Option (ℕ × CachedValue) → Entries → Entries
write k e c j = if k == j then e else c j

abbrev pub sample_redis : RedisClient Entries
sample_redis = record {
  get = λ k now c. ok (alive now (c k));
  set = λ k v ttl now c. (ok tt, write k (some (now + ttl * 1000, v)) c);
  del = λ k now c. (ok tt, write k none c);
  live = λ c now k. alive now (c k);
}

alive-write_self :
    (k : String) (e : Option (ℕ × CachedValue)) (c : Entries) (t : ℕ)
    → alive t (write k e c k) ≡ alive t e
alive-write_self k e c t = rw (eq_refl k)

alive-write_other :
    (k : String) (e : Option (ℕ × CachedValue)) (c : Entries) (t : ℕ) (j : String)
    → k ≢ j
    → alive t (write k e c j) ≡ alive t (c j)
alive-write_other k e c t j ne = elim (Bool-cases (k == j)) [
  | inl same ↦ absurd (ne ((eq_iff k j).0 same))
  | inr other ↦ rw other
]

alive-write-none :
    (k : String) (c : Entries) (t : ℕ) (j : String) (x : CachedValue)
    → alive t (write k none c j) ≡ some x
    → alive t (c j) ≡ some x
alive-write-none k c t j x held = elim (Bool-cases (k == j)) [
  | inl same ↦ absurd_of (rw same at held)
  | inr other ↦ rw other at held
]
  where
    absurd_of : none ≡ some x → alive t (c j) ≡ some x
    absurd_of e = cc

ok-injective : {E A : Type 0} {a b : A} → ◌≡◌ {A = Result E A} (ok a) (ok b) → a ≡ b
ok-injective e = cc

pub sample_redis_laws : RedisLaws sample_redis
sample_redis_laws = record {
  get_reads = λ k now c o e. sym (ok-injective e);
  set_self = λ k v ttl now c c' e t late.
      ap (λ (x : Result String (Unit {0}) × Entries). alive t (x.1 k)) (sym e)
      ∙ alive-write_self k (some (now + ttl * 1000, v)) c t;
  set_other = λ k v ttl now c t j ne. alive-write_other k (some (now + ttl * 1000, v)) c t j ne;
  del_self = λ k now c c' e t late.
      ap (λ (x : Result String (Unit {0}) × Entries). alive t (x.1 k)) (sym e)
      ∙ alive-write_self k none c t;
  del_other = λ k now c t j ne. alive-write_other k none c t j ne;
  del_brings_nothing = λ k now c t j x held. alive-write-none k c t j x held;
}

-- A table as a partial map; an entry under a foreign key is no row.
module _ {Db Where Key Row : Type 0} (same : Key → Key → Bool) (key : Row → Key)
    (resolve : Where → Db → Option Key) (rows : Db → Key → Option Row)
    (put : (Key → Option Row) → Db → Db) where
  abbrev pub own : Key → Option Row → Option Row
  own k none = none
  own k (some r) = if same (key r) k then some r else none

  abbrev pub stored : Db → Key → Option Row
  stored db k = own k (rows db k)

  abbrev pub lookup_where : Where → Db → Option Row
  lookup_where w db = elim (resolve w db) [ none ↦ none | some k ↦ stored db k ]

  abbrev pub assign : Key → Option Row → Db → Db
  assign k e db = put (λ j. if same k j then e else rows db j) db

  abbrev pub create_at : Row → Option Row → Db → Result PrismaError Row × Db
  create_at r none db = (ok r, assign (key r) (some r) db)
  create_at r (some _) db = (err p2002, db)

  abbrev pub replace_at :
      Option Row → (Row → Option Row) → (Row → Row) → Db → Result PrismaError Row × Db
  replace_at none change answer db = (err p2025, db)
  replace_at (some old) change answer db = (ok (answer old), assign (key old) (change old) db)

  abbrev pub sample_table : Table Db Where Key Row
  sample_table = record {
    find_unique = λ w db. ok (lookup_where w db);
    find_unique_or_throw = λ w db. elim (lookup_where w db) [ none ↦ err p2025 | some r ↦ ok r ];
    find_many = λ w db. ok [];
    create = λ make db. create_at (make "new") (stored db (key (make "new"))) db;
    update = λ w change db. replace_at (lookup_where w db) (λ old. some (change old)) change db;
    upsert = λ w fresh change db. elim (lookup_where w db) [
      | none ↦ (ok fresh, assign (key fresh) (some fresh) db)
      | some old ↦ (ok (change old), assign (key old) (some (change old)) db)
    ];
    delete = λ w db. replace_at (lookup_where w db) (λ _. none) (λ old. old) db;
    row = stored;
  }
