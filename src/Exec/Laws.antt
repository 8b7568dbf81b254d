-- ===== src/Exec/Laws.antt =====
-- How a block of steps ends: a block that returns has had every step return, and a block whose
-- next step is known goes on from there.
use idp_be.Prelude.{
  ◌≡◌, sym, subst, ◌∙◌, ◌⊎◌, inl, inr, String, refl, Bool, true, false, Option, none, some, List,
  [], ◌∷◌, not, arith, every, if◌then◌else◌,
}
use idp_be.Exec.Monad.{
  Exec, Result, ok, err, Exception, answer, recover, catch, continue, ◌>>=◌, throw_if,
  for_each_throw_if, optional, present, or_throw, require_text, pure,
}

module _ {S A B : Type 0} where
  continue-eq-ok :
      (r : Result Exception A × S) (f : A → Exec S B) {b : B} {s' : S}
      → continue f r ≡ (ok b, s')
      → (a : A) × (t : S) × (r ≡ (ok a, t)) × (f a t ≡ (ok b, s'))
  continue-eq-ok (ok a, t) f h = (a, t, refl, h)
  continue-eq-ok (err e, t) f h = cc

  -- A block that returns has had its first step return.
  pub >>=-eq-ok :
      (m : Exec S A) (f : A → Exec S B) (s : S) {b : B} {s' : S}
      → (m >>= f) s ≡ (ok b, s')
      → (a : A) × (t : S) × (m s ≡ (ok a, t)) × (f a t ≡ (ok b, s'))
  unfolding ◌>>=◌
  >>=-eq-ok m f s h = continue-eq-ok (m s) f h

  -- The same, for a conclusion about the parts.
  pub >>=-returns {ℓ} :
      {C : Type ℓ} (m : Exec S A) (f : A → Exec S B) (s : S) {b : B} {s' : S}
      → (m >>= f) s ≡ (ok b, s')
      → ((a : A) (t : S) → m s ≡ (ok a, t) → f a t ≡ (ok b, s') → C)
      → C
  >>=-returns m f s h k = let (a, t, e, e') = >>=-eq-ok m f s h in k a t e e'

  pub ok->>= :
      (m : Exec S A) (f : A → Exec S B) (s : S) {a : A} {t : S}
      → m s ≡ (ok a, t)
      → (m >>= f) s ≡ f a t
  unfolding ◌>>=◌
  ok->>= m f s e = rw e

  -- A block whose first step is known to return goes on from what it returned.
  pub >>=-goes_on :
      (m : Exec S A) (f : A → Exec S B) (s : S) {a : A} {t : S} {r : Result Exception B × S}
      → m s ≡ (ok a, t)
      → (m >>= f) s ≡ r
      → f a t ≡ r
  >>=-goes_on m f s e h = sym (ok->>= m f s e) ∙ h

  pub err->>= :
      (m : Exec S A) (f : A → Exec S B) (s : S) {e : Exception} {t : S}
      → m s ≡ (err e, t)
      → (m >>= f) s ≡ (err e, t)
  unfolding ◌>>=◌
  err->>= m f s e = rw e

module _ {S : Type 0} where
  -- A guard that let the block go on did not fire, and changed nothing.
  pub throw_if-eq-ok :
      (b : Bool) (e : Exception) (s : S) {u : Unit {0}} {t : S}
      → throw_if b e s ≡ (ok u, t)
      → (b ≡ false) × (s ≡ t)
  unfolding throw_if
  throw_if-eq-ok true e s h = cc
  throw_if-eq-ok false e s h = (refl, cc)

  for_each_throw_if-head :
      (b : Bool) (e : Exception) (s : S) (r : Result Exception (Unit {0}) × S) {u : Unit {0}}
      {t : S}
      → (if b then (err e, s) else r) ≡ (ok u, t)
      → (b ≡ false) × (r ≡ (ok u, t))
  for_each_throw_if-head true e s r h = cc
  for_each_throw_if-head false e s r h = (refl, h)

  -- A loop of guards that let the block go on fired for no element, and changed nothing.
  pub for_each_throw_if-eq-ok :
      {A : Type 0} (xs : List A) (test : A → Bool) (e : Exception) (s : S) {u : Unit {0}} {t : S}
      → for_each_throw_if xs test e s ≡ (ok u, t)
      → (every (λ x. not (test x)) xs ≡ true) × (s ≡ t)
  unfolding for_each_throw_if
  for_each_throw_if-eq-ok [] test e s h = (refl, cc)
  for_each_throw_if-eq-ok (x ∷ xs) test e s h =
      let (passed, rest) = for_each_throw_if-head (test x) e s _ h in
      let (others, same) = for_each_throw_if-eq-ok xs test e s rest in (rw passed others, same)

  pub every-for_each_throw_if :
      {A : Type 0} (xs : List A) (test : A → Bool) (e : Exception) (s : S)
      → every (λ x. not (test x)) xs ≡ true
      → for_each_throw_if xs test e s ≡ (ok tt, s)
  unfolding for_each_throw_if
  every-for_each_throw_if [] test e s h = refl
  every-for_each_throw_if (x ∷ xs) test e s h = ground (arith, every-for_each_throw_if xs test e s)

module _ {S A : Type 0} where
  pub answer-eq-ok :
      {E : Type 0} (handler : E → Exception) (r : Result E A) (s : S) {a : A} {t : S}
      → answer handler r s ≡ (ok a, t)
      → (r ≡ ok a) × (s ≡ t)
  answer-eq-ok handler (ok b) s h = (cc, cc)
  answer-eq-ok handler (err e) s h = cc

  recover-eq-ok :
      (handler : Exception → Exception) (r : Result Exception A × S) {a : A} {t : S}
      → recover handler r ≡ (ok a, t)
      → r ≡ (ok a, t)
  recover-eq-ok handler (ok b, s) h = h
  recover-eq-ok handler (err e, s) h = cc

  pub catch-eq-ok :
      (m : Exec S A) (handler : Exception → Exception) (s : S) {a : A} {t : S}
      → catch m handler s ≡ (ok a, t)
      → m s ≡ (ok a, t)
  unfolding catch
  catch-eq-ok m handler s h = recover-eq-ok handler (m s) h

  pub ok-catch :
      (m : Exec S A) (handler : Exception → Exception) (s : S) {a : A} {t : S}
      → m s ≡ (ok a, t)
      → catch m handler s ≡ (ok a, t)
  unfolding catch
  ok-catch m handler s e = rw e

module _ {S A : Type 0} where
  present-eq-ok :
      (r : Result Exception A × S) {o : Option A} {t : S}
      → present r ≡ (ok o, t)
      → (a : A) × (o ≡ some a) × (r ≡ (ok a, t))
  present-eq-ok (ok a, s) h = (a, cc, cc)
  present-eq-ok (err e, s) h = cc

  -- An optional step that returned was skipped, or has returned.
  pub optional-eq-ok :
      (b : Bool) (m : Exec S A) (s : S) {o : Option A} {t : S}
      → optional b m s ≡ (ok o, t)
      → ((b ≡ false) × (o ≡ none) × (s ≡ t))
        ⊎ ((b ≡ true) × ((a : A) × (o ≡ some a) × (m s ≡ (ok a, t))))
  unfolding optional
  optional-eq-ok true m s h = inr (refl, present-eq-ok (m s) h)
  optional-eq-ok false m s h = inl (refl, cc, cc)

  pub or_throw-eq-ok :
      (o : Option A) (e : Exception) (s : S) {a : A} {t : S}
      → or_throw o e s ≡ (ok a, t)
      → (o ≡ some a) × (s ≡ t)
  unfolding or_throw
  or_throw-eq-ok none e s h = cc
  or_throw-eq-ok (some b) e s h = (cc, cc)

module _ {S : Type 0} where
  pub require_text-eq-ok :
      (o : Option String) (e : Exception) (s : S) {x : String} {t : S}
      → require_text o e s ≡ (ok x, t)
      → (o ≡ some x) × (s ≡ t)
  unfolding require_text
  require_text-eq-ok none e s h = cc
  require_text-eq-ok (some y) e s h = ground arith

module _ {S B : Type 0} where
  -- A block that returned after a guard: the guard did not fire, and the rest ran from there.
  pub guard-goes_on :
      (b : Bool) (e : Exception) (f : Unit {0} → Exec S B) (s : S) {r : B} {t : S}
      → (throw_if b e >>= f) s ≡ (ok r, t)
      → (b ≡ false) × (f tt s ≡ (ok r, t))
  unfolding ◌>>=◌ throw_if
  guard-goes_on true e f s h = cc
  guard-goes_on false e f s h = (refl, h)

  pub guards-go_on :
      {A : Type 0} (xs : List A) (test : A → Bool) (e : Exception) (f : Unit {0} → Exec S B) (s : S)
      {r : B} {t : S}
      → (for_each_throw_if xs test e >>= f) s ≡ (ok r, t)
      → (every (λ x. not (test x)) xs ≡ true) × (f tt s ≡ (ok r, t))
  guards-go_on xs test e f s {r} {t} h = >>=-returns _ _ s h λ u s1 e1 h1.
      let (none_fired, same) = for_each_throw_if-eq-ok xs test e s e1 in
      (none_fired, subst (λ x. f tt x ≡ (ok r, t)) (sym same) h1)

  pub require_text-goes_on :
      (o : Option String) (e : Exception) (f : String → Exec S B) (s : S) {r : B} {t : S}
      → (require_text o e >>= f) s ≡ (ok r, t)
      → (x : String) × (o ≡ some x) × (f x s ≡ (ok r, t))
  require_text-goes_on o e f s {r} {t} h = >>=-returns _ _ s h λ x s1 e1 h1.
      let (there, same) = require_text-eq-ok o e s e1 in
      (x, there, subst (λ y. f x y ≡ (ok r, t)) (sym same) h1)

  pub pure-eq-ok : (x : B) (s : S) {r : B} {t : S} → pure x s ≡ (ok r, t) → (x ≡ r) × (s ≡ t)
  unfolding pure
  pure-eq-ok x s h = (cc, cc)
