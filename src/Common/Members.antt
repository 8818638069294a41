-- ===== src/Common/Members.antt =====
-- Membership under the list functions that stand for queries and updates.
use mathlib.Core.Path.{◌≡◌, refl}
use mathlib.Core.Logic.{◌⊎◌, ◌↔◌, inl, inr}
use mathlib.Core.Bool.{Bool, true, false}
use mathlib.Core.List.{List, [], ◌∷◌, ◌++◌}
use mathlib.Core.Option.{none, some}
use native.Mathlib.Omega.{arith}
use expenseflow.Common.Tests.{if◌then◌else◌, Bool-cases}
use expenseflow.Common.Lists.{any, find, count, map_where, In, All}

module _ {A : Type 0} where
  pub In-append : (a : A) (xs ys : List A) → In a (xs ++ ys) ↔ (In a xs ⊎ In a ys)
  In-append a [] ys = ground arith
  In-append a (x ∷ xs) ys = ground (arith, In-append a xs ys)

  pub all-In {κ} : (P : A → Type κ) (xs : List A) (a : A) → All P xs → In a xs → P a
  all-In P [] a h m = absurd m
  all-In P (x ∷ xs) a (p, h) (inl e) = rw e p
  all-In P (x ∷ xs) a (p, h) (inr m) = all-In P xs a h m

module _ {A : Type 0} (p : A → Bool) where
  pub any-false : (xs : List A) (a : A) → any p xs ≡ false → In a xs → p a ≡ false
  any-false [] a h m = absurd m
  any-false (x ∷ xs) a h m = ground (arith, any-false xs a)

  -- The row that is found passes the test, and if none is found then no row does.
  pub find-some : (xs : List A) (x : A) → find p xs ≡ some x → In x xs × (p x ≡ true)
  find-some [] x e = absurd (cc)
  find-some (y ∷ xs) x e = elim (Bool-cases (p y)) [
    | inl h ↦ (inl (ground arith), ground arith)
    | inr h ↦ let (m, q) = find-some xs x (ground arith) in (inr m, q)
  ]

  pub find-none : (xs : List A) (x : A) → find p xs ≡ none → In x xs → p x ≡ false
  find-none [] x e m = absurd m
  find-none (y ∷ xs) x e m = ground (arith, find-none xs x)

  pub count-one : (xs : List A) → count p xs ≡ 1 → (a : A) × In a xs × (p a ≡ true)
  count-one [] h = absurd (omega arith)
  count-one (x ∷ xs) h = elim (Bool-cases (p x)) [
    | inl yes_ ↦ (x, inl refl, yes_)
    | inr no_ ↦ let (a, m, q) = count-one xs (ground arith) in (a, inr m, q)
  ]

  -- An updated row comes from a row.
  pub In-map_where :
      (f : A → A) (xs : List A) (b : A)
      → In b (map_where p f xs)
      → (a : A) × In a xs × (b ≡ (if p a then f a else a))
  In-map_where f [] b m = absurd m
  In-map_where f (x ∷ xs) b (inl e) = (x, inl refl, e)
  In-map_where f (x ∷ xs) b (inr m) = let (a, k, e) = In-map_where f xs b m in (a, inr k, e)

  pub map_where-In :
      (f : A → A) (xs : List A) (a : A) → In a xs → In (if p a then f a else a) (map_where p f xs)
  map_where-In f [] a m = absurd m
  map_where-In f (x ∷ xs) a (inl e) = inl (rw e)
  map_where-In f (x ∷ xs) a (inr m) = inr (map_where-In f xs a m)
