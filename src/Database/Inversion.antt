-- ===== src/Database/Inversion.antt =====
-- What a request that ended well has done, step by step.
use expenseflow.Common.{◌≡◌, refl, Bool, true, false, Option, none, some, Error, Result, ok, err}
use expenseflow.Schema.{Store}
use expenseflow.Database.Actions.{Action, after, commit_or_roll_back, throw_if, or_throw, pure}

-- An action and its outcome.
abbrev pub Runs : {A : Type 0} → Action A → Store → A → Store → Type 0
Runs m s a s' = m s ≡ (ok a, s')

pub after-ok :
    {A B : Type 0} (r : Result A × Store) (f : A → Action B) (s' : Store) (b : B)
    → after r f ≡ (ok b, s')
    → (a : A) × (t : Store) × (r ≡ (ok a, t)) × (f a t ≡ (ok b, s'))
after-ok (ok a, t) f s' b e = (a, t, refl, e)
after-ok (err x, t) f s' b e = absurd (cc)

module _ {A : Type 0} where
  pub commit-ok :
      (r : Result A × Store) (s s' : Store) (a : A)
      → commit_or_roll_back s r ≡ (ok a, s')
      → r ≡ (ok a, s')
  commit-ok (ok b, t) s s' a e = e
  commit-ok (err x, t) s s' a e = absurd (cc)

  -- An exception in a transaction leaves no trace of it.
  pub commit-err :
      (r : Result A × Store) (s s' : Store) (x : Error)
      → commit_or_roll_back s r ≡ (err x, s')
      → s' ≡ s
  commit-err (ok b, t) s s' x e = absurd (cc)
  commit-err (err y, t) s s' x e = cc

  pub or_throw-ok :
      (o : Option A) (x : Error) (s s' : Store) (a : A)
      → or_throw o x s ≡ (ok a, s')
      → (o ≡ some a) × (s' ≡ s)
  or_throw-ok none x s s' a e = absurd (cc)
  or_throw-ok (some b) x s s' a e = (cc, cc)

pub throw_if-ok :
    (b : Bool) (x : Error) (s s' : Store) (u : Unit {0})
    → throw_if b x s ≡ (ok u, s')
    → (b ≡ false) × (s' ≡ s)
throw_if-ok true x s s' u e = absurd (cc)
throw_if-ok false x s s' u e = (refl, cc)

-- The same for a step that only reads, with the steps after it.
module _ {A B : Type 0} where
  pub after-or_throw :
      (o : Option A) (x : Error) (f : A → Action B) (s s' : Store) (b : B)
      → after (or_throw o x s) f ≡ (ok b, s')
      → (a : A) × (o ≡ some a) × (f a s ≡ (ok b, s'))
  after-or_throw none x f s s' b e = absurd (cc)
  after-or_throw (some a) x f s s' b e = (a, refl, e)

pub after-throw_if :
    {B : Type 0} (c : Bool) (x : Error) (f : Unit {0} → Action B) (s s' : Store) (b : B)
    → after (throw_if c x s) f ≡ (ok b, s')
    → (c ≡ false) × (f tt s ≡ (ok b, s'))
after-throw_if true x f s s' b e = absurd (cc)
after-throw_if false x f s s' b e = (refl, e)

-- An action that ends with a value computed from what came before it.
pub after-pure :
    {A B : Type 0} (r : Result A × Store) (a b : B) (s' : Store)
    → after r (λ x. pure a) ≡ (ok b, s')
    → (x : A) × (r ≡ (ok x, s')) × (b ≡ a)
after-pure (ok x, t) a b s' e = (x, cc, cc)
after-pure (err x, t) a b s' e = absurd (cc)
