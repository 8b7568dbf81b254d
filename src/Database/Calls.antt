-- ===== src/Database/Calls.antt =====
-- How the repositories call Prisma: `await prisma.call().catch((error) => …)`.
use idp_be.Prelude.{◌≡◌, sym, subst}
use idp_be.Exec.{
  Exec, Result, ok, err, Exception, PrismaError, answer, answer-eq-ok, ◌>>=◌, >>=-returns,
}
use idp_be.Platform.{World}

module _ {Db Cache A : Type 0} where
  -- A call that reads.
  unfoldable pub query :
      (Db → Result PrismaError A) → (PrismaError → Exception) → Exec (World Db Cache) A
  query call handler w = answer handler (call w.db) w

  abbrev pub settle :
      (PrismaError → Exception)
      → World Db Cache
      → Result PrismaError A × Db
      → Result Exception A × World Db Cache
  settle handler w (ok a, d) = (ok a, record w { db = d })
  settle handler w (err e, d) = (err (handler e), record w { db = d })

  -- A call that writes.
  unfoldable pub statement :
      (Db → Result PrismaError A × Db) → (PrismaError → Exception) → Exec (World Db Cache) A
  statement call handler w = settle handler w (call w.db)

  pub query-eq-ok :
      (call : Db → Result PrismaError A) (handler : PrismaError → Exception) (w : World Db Cache)
      {a : A} {w' : World Db Cache}
      → query call handler w ≡ (ok a, w')
      → (call w.db ≡ ok a) × (w ≡ w')
  unfolding query
  query-eq-ok call handler w h = answer-eq-ok handler (call w.db) w h

  settle-eq-ok :
      (handler : PrismaError → Exception) (w : World Db Cache) (r : Result PrismaError A × Db)
      {a : A} {w' : World Db Cache}
      → settle handler w r ≡ (ok a, w')
      → (d : Db) × (r ≡ (ok a, d)) × (w' ≡ record w { db = d })
  settle-eq-ok handler w (ok b, d) h = (d, cc, cc)
  settle-eq-ok handler w (err e, d) h = cc

  -- A write that succeeded changed the database only, by Prisma's own write.
  pub statement-eq-ok :
      (call : Db → Result PrismaError A × Db) (handler : PrismaError → Exception)
      (w : World Db Cache) {a : A} {w' : World Db Cache}
      → statement call handler w ≡ (ok a, w')
      → (d : Db) × (call w.db ≡ (ok a, d)) × (w' ≡ record w { db = d })
  unfolding statement
  statement-eq-ok call handler w h = settle-eq-ok handler w (call w.db) h

module _ {Db Cache A B : Type 0} where
  -- A block that returned after a read of the database ran on from the same state.
  pub query-goes_on :
      (call : Db → Result PrismaError A) (handler : PrismaError → Exception)
      (f : A → Exec (World Db Cache) B) (w : World Db Cache) {r : B} {t : World Db Cache}
      → (query call handler >>= f) w ≡ (ok r, t)
      → (a : A) × (call w.db ≡ ok a) × (f a w ≡ (ok r, t))
  query-goes_on call handler f w {r} {t} h = >>=-returns _ _ w h λ a w1 e1 h1.
      let (read, same) = query-eq-ok call handler w e1 in
      (a, read, subst (λ x. f a x ≡ (ok r, t)) (sym same) h1)

-- The handlers of the repositories: by the error's code, or `InternalServerErrorException`.
abbrev pub on_p2025 : Exception → PrismaError → Exception
on_p2025 e PrismaError.p2025 = e
on_p2025 e _ = Exception.internal ""

abbrev pub on_p2002 : Exception → PrismaError → Exception
on_p2002 e PrismaError.p2002 = e
on_p2002 e _ = Exception.internal ""

abbrev pub on_p2025_or_p2002 : Exception → Exception → PrismaError → Exception
on_p2025_or_p2002 missing present PrismaError.p2025 = missing
on_p2025_or_p2002 missing present PrismaError.p2002 = present
on_p2025_or_p2002 missing present _ = Exception.internal ""
