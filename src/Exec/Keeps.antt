-- ===== src/Exec/Keeps.antt =====
-- State predicates that a handler keeps however it ends, one rule for each way to build it.
use idp_be.Prelude.{
  String, Bool, true, false, Option, none, some, List, [], ◌∷◌, ◌==◌, if◌then◌else◌,
}
use idp_be.Exec.Monad.{
  Exec, Result, ok, err, Exception, pure, throw, recover, catch, continue, ◌>>=◌, throw_if,
  optional, present, or_throw, when, require_text, for_each_throw_if,
}

-- After `m` the predicate `Q` holds wherever it held before, whether `m` returned or threw.
pub record Keeps {S A : Type 0} (Q : S → Type 0) (m : Exec S A) : Type 0 where
  pub after : (s : S) → Q s → Q (m s).1

module _ {S A : Type 0} (Q : S → Type 0) where
  keeps_if : (b : Bool) (r r' : Result Exception A × S) → Q r.1 → Q r'.1 → Q (if b then r else r').1
  keeps_if true r r' h h' = h
  keeps_if false r r' h h' = h'

  keeps_recover :
      (handler : Exception → Exception) (r : Result Exception A × S)
      → Q r.1
      → Q (recover handler r).1
  keeps_recover handler (ok a, s) h = h
  keeps_recover handler (err e, s) h = h

  keeps_present : (r : Result Exception A × S) → Q r.1 → Q (present r).1
  keeps_present (ok a, s) h = h
  keeps_present (err e, s) h = h

module _ {S A : Type 0} {Q : S → Type 0} where
  pub Keeps-pure : (a : A) → Keeps Q (pure a)
  unfolding pure
  Keeps-pure a = record { after = λ s h. h }

  pub Keeps-throw : (e : Exception) → Keeps Q (throw {A = A} e)
  unfolding throw
  Keeps-throw e = record { after = λ s h. h }

  pub Keeps-if : (b : Bool) (m n : Exec S A) → Keeps Q m → Keeps Q n → Keeps Q (if b then m else n)
  Keeps-if true m n k k' = k
  Keeps-if false m n k k' = k'

  pub Keeps-catch :
      (m : Exec S A) (handler : Exception → Exception) → Keeps Q m → Keeps Q (catch m handler)
  unfolding catch
  Keeps-catch m handler k = record { after = λ s h. keeps_recover Q handler (m s) (k.after s h) }

  pub Keeps-optional : (b : Bool) (m : Exec S A) → Keeps Q m → Keeps Q (optional b m)
  unfolding optional
  Keeps-optional true m k = record { after = λ s h. keeps_present Q (m s) (k.after s h) }
  Keeps-optional false m k = record { after = λ s h. h }

  pub Keeps-or_throw : (o : Option A) (e : Exception) → Keeps Q (or_throw o e)
  unfolding or_throw
  Keeps-or_throw none e = record { after = λ s h. h }
  Keeps-or_throw (some a) e = record { after = λ s h. h }

module _ {S : Type 0} {Q : S → Type 0} where
  -- A step that looks at the state first.
  pub Keeps-by_state :
      {A : Type 0} (f : S → Exec S A) → ((s : S) → Keeps Q (f s)) → Keeps Q (λ s. f s s)
  Keeps-by_state f k = record { after = λ s h. (k s).after s h }

  pub Keeps-throw_if : (b : Bool) (e : Exception) → Keeps Q (throw_if b e)
  unfolding throw_if
  Keeps-throw_if true e = record { after = λ s h. h }
  Keeps-throw_if false e = record { after = λ s h. h }

  pub Keeps-when : (b : Bool) (m : Exec S (Unit {0})) → Keeps Q m → Keeps Q (when b m)
  Keeps-when true m k = k
  Keeps-when false m k = record { after = λ s h. h }

  pub Keeps-require_text : (o : Option String) (e : Exception) → Keeps Q (require_text o e)
  unfolding require_text
  Keeps-require_text none e = record { after = λ s h. h }
  Keeps-require_text (some x) e = record {
    after = λ s h. keeps_if Q (x == "") (err e, s) (ok x, s) h h;
  }

  pub Keeps-for_each_throw_if :
      {A : Type 0} (xs : List A) (test : A → Bool) (e : Exception)
      → Keeps Q (for_each_throw_if xs test e)
  unfolding for_each_throw_if
  Keeps-for_each_throw_if [] test e = record { after = λ s h. h }
  Keeps-for_each_throw_if (x ∷ xs) test e = record {
    after = λ s h.
        keeps_if Q (test x) (err e, s) (for_each_throw_if xs test e s) h
          ((Keeps-for_each_throw_if xs test e).after s h);
  }

module _ {S A B : Type 0} {Q : S → Type 0} where
  keeps_continue :
      (r : Result Exception A × S) (f : A → Exec S B)
      → Q r.1
      → ((a : A) → Keeps Q (f a))
      → Q (continue f r).1
  keeps_continue (ok a, s) f h k = (k a).after s h
  keeps_continue (err e, s) f h k = h

  pub Keeps-bind :
      (m : Exec S A) (f : A → Exec S B) → Keeps Q m → ((a : A) → Keeps Q (f a)) → Keeps Q (m >>= f)
  unfolding ◌>>=◌
  Keeps-bind m f k ks = record { after = λ s h. keeps_continue (m s) f (k.after s h) ks }

pub ruleset keeps_rules = (
  Keeps-pure, Keeps-throw, Keeps-catch, Keeps-optional, Keeps-or_throw, Keeps-throw_if, Keeps-when,
  Keeps-if, Keeps-require_text, Keeps-for_each_throw_if, Keeps-bind,
)
