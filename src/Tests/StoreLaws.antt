-- ===== src/Tests/StoreLaws.antt =====
-- The concrete tables meet the laws that the theorems assume.
use idp_be.Prelude.{
  ◌≡◌, ◌≢◌, ◌↔◌, refl, sym, ap, ◌∙◌, Bool, true, false, Option, none, some, inl, inr, arith,
  Bool-cases,
}
use idp_be.Exec.{Result, ok, err, PrismaError, p2025}
use idp_be.Platform.Laws.{TableLaws}
use idp_be.Tests.Store.{sample_table, stored, assign, own, create_at, replace_at, lookup_where}

module _ {Db Where Key Row : Type 0} (same : Key → Key → Bool) (key : Row → Key)
    (resolve : Where → Db → Option Key) (rows : Db → Key → Option Row)
    (put : (Key → Option Row) → Db → Db) (at : Key → Where)
    (same_iff : (a b : Key) → (same a b ≡ true) ↔ (a ≡ b))
    (resolve_at : (k : Key) (db : Db) → resolve (at k) db ≡ some k)
    (rows_put : (s : Key → Option Row) (db : Db) → rows (put s db) ≡ s) where
  abbrev row_at : Db → Key → Option Row
  row_at = stored same key resolve rows put

  abbrev assigned : Key → Option Row → Db → Db
  assigned = assign same key resolve rows put

  own_keyed :
      (k : Key) (o : Option Row) (r : Row) → own same key resolve rows put k o ≡ some r → key r ≡ k
  own_keyed k none r e = cc
  own_keyed k (some x) r e = ground (arith, same_iff (key x) k)

  find_at : (k : Key) (db : Db) → lookup_where same key resolve rows put (at k) db ≡ row_at db k
  find_at k db = rw (resolve_at k db, lookup_where)

  row-assigned_self :
      (k : Key) (r : Row) (db : Db) → key r ≡ k → row_at (assigned k (some r) db) k ≡ some r
  row-assigned_self k r db e = rw (rows_put, (same_iff k k).1 refl, (same_iff (key r) k).1 e)

  row-assigned-key :
      (made r : Row)
      → r ≡ made
      → (db : Db) → row_at (assigned (key made) (some made) db) (key r) ≡ some r
  row-assigned-key made r e db =
      ap (λ x. row_at (assigned (key made) (some made) db) (key x)) e
      ∙ row-assigned_self (key made) made db refl
      ∙ ap some (sym e)

  row-assigned-none : (k : Key) (db : Db) → row_at (assigned k none db) k ≡ none
  row-assigned-none k db = rw (rows_put, (same_iff k k).1 refl)

  same_false : (a b : Key) → a ≢ b → same a b ≡ false
  same_false a b ne = elim (Bool-cases (same a b)) [
    | inl e ↦ absurd (ne ((same_iff a b).0 e))
    | inr e ↦ e
  ]

  row-assigned_other :
      (k j : Key) (e : Option Row) (db : Db) → k ≢ j → row_at (assigned k e db) j ≡ row_at db j
  row-assigned_other k j e db ne = rw (rows_put, same_false k j ne)

  created :
      (r r' : Row) (o : Option Row) (db db' : Db)
      → create_at same key resolve rows put r o db ≡ (ok r', db')
      → (o ≡ none) × (r' ≡ r) × (db' ≡ assigned (key r) (some r) db)
  created r r' none db db' e = (refl, cc, cc)
  created r r' (some x) db db' e = cc

  pub replaced :
      (o : Option Row) (change : Row → Option Row) (answer : Row → Row) (db db' : Db) (r : Row)
      → replace_at same key resolve rows put o change answer db ≡ (ok r, db')
      → (old : Row) × (o ≡ some old) × (r ≡ answer old) × (db' ≡ assigned (key old) (change old) db)
  replaced none change answer db db' r e = cc
  replaced (some old) change answer db db' r e = (old, refl, cc, cc)

  -- An update or a deletion at a key acted on the row there.
  replaced_at :
      (k : Key) (change : Row → Option Row) (answer : Row → Row) (db db' : Db) (r : Row)
      → replace_at same key resolve rows put
          (lookup_where same key resolve rows put (at k) db)
          change
          answer
          db
        ≡ (ok r, db')
      → (old : Row) × (row_at db k ≡ some old)
        × (key old ≡ k)
        × (r ≡ answer old)
        × (db' ≡ assigned k (change old) db)
  replaced_at k change answer db db' r e =
      let (old, found, answered, stored') = replaced _ change answer db db' r e in
      let here = sym (find_at k db) ∙ found in
      let keyed = own_keyed k (rows db k) old here in
      (old, here, keyed, answered, stored' ∙ ap (λ x. assigned x (change old) db) keyed)

  found_ok :
      (o : Option Row) (r : Row)
      → ◌≡◌ {A = Result PrismaError Row} (elim o [ none ↦ err p2025 | some x ↦ ok x ]) (ok r)
      → o ≡ some r
  found_ok none r e = cc
  found_ok (some x) r e = cc

  pub sample_table_laws : TableLaws (sample_table same key resolve rows put) key at
  sample_table_laws = record {
    find_reads = λ k db r e. sym (find_at k db) ∙ found_ok _ r e;
    rows_keyed = λ k db r e. own_keyed k (rows db k) r e;
    create_stores = λ make db db' r e.
        let (empty, made, stored') = created (make "new") r _ db db' e in
        (
          "new",
          made,
          rw made empty,
          ap (λ d. row_at d (key r)) stored' ∙ row-assigned-key (make "new") r made db,
        );
    create_other = λ make db db' r e k ne.
        let (empty, made, stored') = created (make "new") r _ db db' e in
        ap (λ d. row_at d k) stored'
        ∙ row-assigned_other (key (make "new")) k (some (make "new")) db
            (λ same_key. ne (ap key made ∙ same_key));
    update_stores = λ k change db db' r keeps e.
        let (old, here, keyed, answered, stored') = replaced_at k _ _ db db' r e in
        (
          old,
          here,
          answered,
          ap (λ d. row_at d k) stored'
              ∙ row-assigned_self k (change old) db (keeps old ∙ keyed)
              ∙ ap some (sym answered),
        );
    update_other = λ k change db db' r keeps e j ne.
        let (old, here, keyed, answered, stored') = replaced_at k _ _ db db' r e in
        ap (λ d. row_at d j) stored' ∙ row-assigned_other k j (some (change old)) db ne;
    delete_removes = λ k db db' r e.
        let (old, here, keyed, answered, stored') = replaced_at k (λ _. none) (λ x. x) db db' r e in
        (here ∙ ap some (sym answered), ap (λ d. row_at d k) stored' ∙ row-assigned-none k db);
    delete_other = λ k db db' r e j ne.
        let (old, here, keyed, answered, stored') = replaced_at k (λ _. none) (λ x. x) db db' r e in
        ap (λ d. row_at d j) stored' ∙ row-assigned_other k j none db ne;
  }
