-- ===== src/Database/Keeping.antt =====
-- Requests that keep a property of the store, however they end.
use expenseflow.Common.{
  subst, sym, ◌≡◌, refl, Text, Bool, true, false, Option, none, some, Error, Result, ok, err,
}
use expenseflow.Schema.{Store}
use expenseflow.Database.Actions.{
  Action, ◌>>=◌, after, or_throw, throw_if, commit_or_roll_back, with_tenant,
}

abbrev pub Keeps : {A : Type 0} → (Store → Type 0) → Action A → Type 0
Keeps P m = (s : Store) → P s → P (m s).1

module _ (P : Store → Type 0) where
  pub Keeps-after :
      {A B : Type 0} (r : Result A × Store) (f : A → Action B)
      → P r.1
      → ((a : A) → r.0 ≡ ok a → P (f a r.1).1)
      → P (after r f).1
  Keeps-after (ok a, s) f h k = k a refl
  Keeps-after (err e, s) f h k = h

  pub Keeps-bind :
      {A B : Type 0} (m : Action A) (f : A → Action B)
      → Keeps P m
      → ((a : A) → Keeps P (f a))
      → Keeps P (m >>= f)
  Keeps-bind m f h k s p = Keeps-after (m s) f (h s p) (λ a e. k a (m s).1 (h s p))

  pub Keeps-commit :
      {A : Type 0} (r : Result A × Store) (s : Store)
      → P s
      → ((a : A) → r.0 ≡ ok a → P r.1)
      → P (commit_or_roll_back s r).1
  Keeps-commit (ok a, s') s h k = k a refl
  Keeps-commit (err e, s') s h k = h

  pub Keeps-tenant : {A : Type 0} (o : Text) (m : Action A) → Keeps P m → Keeps P (with_tenant o m)
  Keeps-tenant o m h s p = Keeps-commit (m s) s p (λ a e. h s p)

  pub Keeps-or_throw : {A : Type 0} (o : Option A) (e : Error) → Keeps P (or_throw o e)
  Keeps-or_throw none e s p = p
  Keeps-or_throw (some a) e s p = p

  pub Keeps-throw_if : (b : Bool) (e : Error) → Keeps P (throw_if b e)
  Keeps-throw_if true e s p = p
  Keeps-throw_if false e s p = p

-- A step that only reads.
pub after_read :
    {A B : Type 0} (P : Store → Type 0) (r : Result A × Store) (f : A → Action B) (s : Store)
    → r.1 ≡ s
    → P s
    → ((a : A) → P (f a s).1)
    → P (after r f).1
after_read P (ok a, t) f s same p h = subst (λ y. P (f a y).1) (sym same) (h a)
after_read P (err x, t) f s same p h = subst P (sym same) p

pub throw_if-reads : (b : Bool) (x : Error) (s : Store) → (throw_if b x s).1 ≡ s
throw_if-reads true x s = refl
throw_if-reads false x s = refl
