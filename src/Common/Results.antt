-- ===== src/Common/Results.antt =====
-- What a request ends with: a value, or an exception that Nest turns into an HTTP status.
use Prim.Native.String.{String}
use mathlib.Core.Path.{◌≡◌, refl}
use mathlib.Core.Bool.{Bool, true, false}
use mathlib.Core.Option.{Option, none, some}

-- One constructor for each exception class that the services throw. `internal` is any other
-- error, which Nest answers with status 500.
pub data Error : Type 0 where
  bad_request unauthorized forbidden not_found conflict too_many unavailable internal :
      String → Error

pub data Result {ℓ} (A : Type ℓ) : Type ℓ where
  ok : A → Result A
  err : Error → Result A

module _ {A B : Type 0} where
  infixl 5 ◌>>=◌
  abbrev pub ◌>>=◌ : Result A → (A → Result B) → Result B
  ok a >>= f = f a
  err e >>= f = err e

  infixl 5 ◌>>◌
  abbrev pub ◌>>◌ : Result A → Result B → Result B
  r >> k = r >>= λ _. k

abbrev pub ok_or : {A : Type 0} → Option A → Error → Result A
ok_or none e = err e
ok_or (some a) e = ok a

abbrev pub refuse_if : Bool → Error → Result (Unit {0})
refuse_if true e = err e
refuse_if false e = ok tt

-- What a chain that ended well went through.
pub bind-ok :
    {A B : Type 0} (r : Result A) (f : A → Result B) (b : B)
    → r >>= f ≡ ok b
    → (a : A) × (r ≡ ok a) × (f a ≡ ok b)
bind-ok (ok a) f b e = (a, refl, e)
bind-ok (err x) f b e = absurd (cc (e))

pub bind-ok_or :
    {A B : Type 0} (o : Option A) (x : Error) (f : A → Result B) (b : B)
    → ok_or o x >>= f ≡ ok b
    → (a : A) × (o ≡ some a) × (f a ≡ ok b)
bind-ok_or none x f b e = absurd (cc (e))
bind-ok_or (some a) x f b e = (a, refl, e)

pub bind-refuse_if :
    {B : Type 0} (c : Bool) (x : Error) (f : Unit {0} → Result B) (b : B)
    → refuse_if c x >>= f ≡ ok b
    → (c ≡ false) × (f tt ≡ ok b)
bind-refuse_if true x f b e = absurd (cc (e))
bind-refuse_if false x f b e = (refl, e)
