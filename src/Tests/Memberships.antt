-- ===== src/Tests/Memberships.antt =====
-- The memberships of the sample meet the laws of memberships, and its other tables theirs.
use idp_be.Prelude.{
  String, ◌≡◌, ◌≢◌, refl, ap, ◌∙◌, true, Option, none, some, inl, inr, Bool-cases, if◌then◌else◌,
  ◌==◌, eq_iff,
}
use idp_be.Exec.{Result, ok, err, PrismaError}
use idp_be.Schema.{UserClientRelation, Client, Authenticator}
use idp_be.Platform.{PairKey, AuthenticatorWhere, ClientWhere}
use idp_be.Platform.Laws.{TableLaws, MembershipLaws, UpdateLaws, relation_key}
use idp_be.Tests.Store.{own}
use idp_be.Tests.StoreLaws.{sample_table_laws, replaced}
use idp_be.Tests.Sample.{
  SampleDb, sample_prisma, same_pair, same_pair_iff, resolve_authenticator, resolve_client,
  relation_laws, with_relation, link, unlink, rolled_back,
}

abbrev row : SampleDb → PairKey → Option UserClientRelation
row db k = sample_prisma.relations.row db k

abbrev assigned : PairKey → Option UserClientRelation → SampleDb → SampleDb
assigned k r db = record db { relations = λ j. if same_pair k j then r else db.relations j }

with_relation-ok :
    (uuid : String) (k : PairKey) (r : Option UserClientRelation) (found : Option Client)
    (db db' : SampleDb) (c : Client)
    → with_relation uuid k r found db ≡ (ok c, db')
    → db' ≡ assigned k r db
with_relation-ok uuid k r none db db' c h = cc
with_relation-ok uuid k r (some _) db db' c h = cc

link-ok :
    (uuid : String) (r : UserClientRelation) (had : Option UserClientRelation) (db db' : SampleDb)
    (c : Client)
    → link uuid r had db ≡ (ok c, db')
    → (had ≡ none) × (db' ≡ assigned (relation_key r) (some r) db)
link-ok uuid r none db db' c h =
    (refl, with_relation-ok uuid (relation_key r) (some r) (db.clients uuid) db db' c h)
link-ok uuid r (some _) db db' c h = cc

unlink-ok :
    (uuid : String) (k : PairKey) (had : Option UserClientRelation) (db db' : SampleDb) (c : Client)
    → unlink uuid k had db ≡ (ok c, db')
    → db' ≡ assigned k none db
unlink-ok uuid k none db db' c h = cc
unlink-ok uuid k (some _) db db' c h = with_relation-ok uuid k none (db.clients uuid) db db' c h

rolled_back-ok :
    (before : SampleDb) (r : Result PrismaError (Unit {0}) × SampleDb) (db' : SampleDb)
    → rolled_back before r ≡ (ok tt, db')
    → r ≡ (ok tt, db')
rolled_back-ok before (ok tt, db) db' h = h
rolled_back-ok before (err e, db) db' h = cc

same_pair_refl : (k : PairKey) → same_pair k k ≡ true
same_pair_refl k = (same_pair_iff k k).1 refl

row-none : (db : SampleDb) (k : PairKey) → db.relations k ≡ none → row db k ≡ none
row-none db k h = rw h

row-assigned-none : (db : SampleDb) (k : PairKey) → row (assigned k none db) k ≡ none
row-assigned-none db k = rw (same_pair_refl k)

abbrev own_row : PairKey → Option UserClientRelation → Option UserClientRelation
own_row k none = none
own_row k (some r) = if same_pair (relation_key r) k then some r else none

own-is_own_row :
    (k : PairKey) (o : Option UserClientRelation)
    → own same_pair relation_key
        (λ (q : PairKey) (db : SampleDb). some q)
        (λ db. db.relations)
        (λ s db. record db { relations = s })
        k
        o
      ≡ own_row k o
own-is_own_row k none = refl
own-is_own_row k (some r) = refl

row-is_own : (db : SampleDb) (k : PairKey) → row db k ≡ own_row k (db.relations k)
row-is_own db k = own-is_own_row k (db.relations k)

row-assigned-some :
    (db : SampleDb) (r : UserClientRelation)
    → row (assigned (relation_key r) (some r) db) (relation_key r) ≡ some r
row-assigned-some db r =
    let k = relation_key r in
    row-is_own (assigned k (some r) db) k
    ∙ ap (λ b. own_row k (if b then some r else db.relations k)) (same_pair_refl k)
    ∙ ap (λ b. if b then some r else none) (same_pair_refl k)

row-assigned_other :
    (db : SampleDb) (k j : PairKey) (r : Option UserClientRelation)
    → k ≢ j
    → row (assigned k r db) j ≡ row db j
row-assigned_other db k j r ne = elim (Bool-cases (same_pair k j)) [
  | inl same ↦ absurd (ne ((same_pair_iff k j).0 same))
  | inr other ↦ rw other
]

found-injective :
    {A : Type 0} {o : A} {a : A} → ◌≡◌ {A = Result PrismaError A} (ok o) (ok a) → o ≡ a
found-injective e = cc

pub membership_laws : MembershipLaws sample_prisma
membership_laws = record {
  table = relation_laws;
  find_unique_reads = λ k db r h. found-injective h;
  transaction_commits = λ body db db' h. rolled_back-ok db (body db) db' h;
  link_creates = λ uuid r db db' c h.
      let (empty, made) = link-ok uuid r _ db db' c h in
      (
        row-none db (relation_key r) empty,
        ap (λ d. row d (relation_key r)) made ∙ row-assigned-some db r,
        λ j ne. ap (λ d. row d j) made ∙ row-assigned_other db (relation_key r) j (some r) ne,
      );
  unlink_removes = λ uuid k db db' c h.
      let made = unlink-ok uuid k _ db db' c h in
      (
        ap (λ d. row d k) made ∙ row-assigned-none db k,
        λ j ne. ap (λ d. row d j) made ∙ row-assigned_other db k j none ne,
      );
}

pub authenticator_laws :
    TableLaws sample_prisma.authenticators (λ (a : Authenticator). a.id) AuthenticatorWhere.by_id
authenticator_laws =
    sample_table_laws (λ a b. a == b) _ resolve_authenticator (λ (db : SampleDb). db.authenticators)
      (λ s db. record db { authenticators = s }) AuthenticatorWhere.by_id eq_iff (λ k db. refl)
      (λ s db. refl)

pub client-UpdateLaws : UpdateLaws sample_prisma.clients
client-UpdateLaws = record {
  update_returns = λ at change db db' r h.
      let (old, _, answered, _) =
        replaced (λ a b. a == b) (λ (c : Client). c.uuid) resolve_client
          (λ (db : SampleDb). db.clients) (λ s db. record db { clients = s }) ClientWhere.by_uuid
          eq_iff (λ k db. refl) (λ s db. refl) _ _ change db db' r h in
      (old, answered);
}
