-- ===== src/Database/Actions.antt =====
-- A request runs over the store and ends with a value or an exception (prisma/prisma.service.ts).
use expenseflow.Common.{ℕ, Text, Bool, true, false, Option, none, some, Error, Result, ok, err}
use expenseflow.Schema.{Store, TraceContext}

-- What a request takes from outside: the time, the ids and random strings that it draws, in order,
-- and the trace that the request runs under.
pub record Env : Type 0 where
  pub now : ℕ
  pub drawn : ℕ → Text
  pub trace : Option TraceContext

-- The store comes back after an exception too: what was written before it stays written.
abbrev pub Action : Type 0 → Type 0
Action A = Store → Result A × Store

module _ {A : Type 0} where
  abbrev pub pure : A → Action A
  pure a s = (ok a, s)

  abbrev pub throw : Error → Action A
  throw e s = (err e, s)

  abbrev pub gets : (Store → A) → Action A
  gets f s = (ok (f s), s)

  abbrev pub or_throw : Option A → Error → Action A
  or_throw none e = throw e
  or_throw (some a) e = pure a

abbrev pub after : {A B : Type 0} → Result A × Store → (A → Action B) → Result B × Store
after (ok a, s) f = f a s
after (err e, s) f = (err e, s)

infixl 5 ◌>>=◌ ◌>>◌
abbrev pub ◌>>=◌ : {A B : Type 0} → Action A → (A → Action B) → Action B
◌>>=◌ m f s = after (m s) f

abbrev pub ◌>>◌ : {A B : Type 0} → Action A → Action B → Action B
m >> k = m >>= λ _. k

abbrev pub throw_if : Bool → Error → Action (Unit {0})
throw_if true e = throw e
throw_if false e = pure tt

abbrev pub commit_or_roll_back : {A : Type 0} → Store → Result A × Store → Result A × Store
commit_or_roll_back s (ok a, s') = (ok a, s')
commit_or_roll_back s (err e, s') = (err e, s)

-- `PrismaService.withTenant`: the work is one transaction, which an exception rolls back.
abbrev pub with_tenant : {A : Type 0} → Text → Action A → Action A
with_tenant organization_id work s = commit_or_roll_back s (work s)
