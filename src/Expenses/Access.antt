-- ===== src/Expenses/Access.antt =====
-- The reads of expenses.service.ts and who makes them.
use expenseflow.Common.{
  Option, none, some, ok, err, Result, Error, ◌≢◌, Option-cases, ℕ, zero, suc, ◌-◌, ◌*◌, ◌≤◌, ◌≡◌,
  refl, subst, min, Text, text_is_eq, text_eq_iff, List, [], ◌∷◌, Bool, true, not, ◌==◌, ◌&&◌, In,
  inl, inr, not_found, forbidden, arith, length, take, drop, number_eq,
}
use expenseflow.Schema.{
  Role, Expense, ExpenseStatus, Store, role_eq, expense_status_eq, role_same_iff,
}
use expenseflow.Database.{Client, IsClient, Runs, after-or_throw, after-throw_if}
use expenseflow.Expenses.{
  AuthUser, ListExpensesQuery, ExpensePage, is_listed, status_named, status_filter, is_employee,
  newest_first, get, list,
}

-- An expense that the caller may see: one of the organization, and an employee's own.
abbrev pub IsVisible : AuthUser → Expense → Type 0
IsVisible user e =
    (e.organization_id ≡ user.organization_id) × (user.role ≡ Role.employee → e.user_id ≡ user.sub)

In-take : {A : Type 0} (n : ℕ) (xs : List A) (a : A) → In a (take n xs) → In a xs
In-take zero xs a m = absurd m
In-take (suc n) [] a m = absurd m
In-take (suc n) (x ∷ xs) a (inl e) = inl e
In-take (suc n) (x ∷ xs) a (inr m) = inr (In-take n xs a m)

In-drop : {A : Type 0} (n : ℕ) (xs : List A) (a : A) → In a (drop n xs) → In a xs
In-drop zero xs a m = m
In-drop (suc n) [] a m = absurd m
In-drop (suc n) (x ∷ xs) a m = inr (In-drop n xs a m)

length-take : {A : Type 0} (n : ℕ) (xs : List A) → length (take n xs) ≤ n
length-take zero xs = omega arith
length-take (suc n) [] = omega arith
length-take (suc n) (x ∷ xs) = omega (arith, length-take n xs)

is_listed-IsVisible :
    (lower : Text → Text) (user : AuthUser) (category : Option Text) (status : Option ExpenseStatus)
    (e : Expense)
    → is_listed lower user category status e ≡ true
    → IsVisible user e
unfolding is_listed
is_listed-IsVisible lower user category status e h = (
  ground (arith, text_eq_iff e.organization_id user.organization_id),
  λ employee. ground (arith, text_eq_iff e.user_id user.sub, role_same_iff user.role Role.employee),
)

-- What `list` may end with: a page of rows that the caller may see, at most 100 and at most as many
-- as asked for, or an error for a status that is not the name of one.
abbrev pub Listed :
    (Text → Text) → AuthUser → ListExpensesQuery → Store → Result ExpensePage × Store → Type 0
Listed lower user query s (err x, s') =
    (s' ≡ s)
    × ((name : Text) × (query.status ≡ some name) × (name ≢ []) × (status_named name ≡ none))
Listed lower user query s (ok page, s') =
    (s' ≡ s)
    × ((e : Expense) → In e page.items → In e s.expenses × IsVisible user e)
    × (length page.items ≤ query.limit)
    × (length page.items ≤ 100)

filter-unknown :
    (status : Option Text) (x : Error)
    → status_filter status ≡ err x
    → (name : Text) × (status ≡ some name) × (name ≢ []) × (status_named name ≡ none)
unfolding status_filter
filter-unknown none x e = absurd (cc (e))
filter-unknown (some []) x e = absurd (cc (e))
filter-unknown (some (c ∷ t)) x e = elim (Option-cases (status_named (c ∷ t))) [
  | inl missing ↦ (c ∷ t, refl, (λ q. absurd (cc (q))), missing)
  | inr (status, found) ↦ absurd (cc (rw (found, status_filter) at e))
]

module _ (db : Client) (laws : IsClient db) where
  -- If `get` returns an expense, it is a row with the id asked for, of the caller's
  -- organization, and the caller's own if the caller is an employee; nothing is changed.
  pub get-IsVisible :
      (user : AuthUser) (id : Text) (s s' : Store) (e : Expense)
      → Runs (get db user id) s e s'
      → (s' ≡ s) × In e s.expenses × (e.id ≡ id) × IsVisible user e
  unfolding get
  get-IsVisible user id s s' e h =
      let selects : Expense → Bool =
        λ row. row.id == id && row.organization_id == user.organization_id in
      let (found, p, h1) =
        after-or_throw (db.find_first selects s.expenses) (not_found "Expense not found") _ s s' e
          h in
      let (open_, last) =
        after-throw_if (is_employee user && not (found.user_id == user.sub))
          (forbidden "You can only view your own expenses") _ s s' e h1 in
      let (m, t) = laws.find_first_some selects s.expenses found p in
      let is : found ≡ e = cc (last) in
      let visible : IsVisible user found = (
        ground (arith, text_eq_iff found.organization_id user.organization_id),
        λ employee.
            ground
              (arith, text_eq_iff found.user_id user.sub, role_same_iff user.role Role.employee),
      ) in
      (
        cc (last),
        subst (λ y. In y s.expenses) is m,
        subst (λ (y : Expense). y.id ≡ id) is (ground (arith, text_eq_iff found.id id)),
        subst (IsVisible user) is visible,
      )

  -- `list` changes nothing. It answers with a page of at most 100 rows and at most `limit` rows,
  -- each a row of the table, of the caller's organization, and the caller's own if the caller is
  -- an employee; or, only if the status asked for is not empty and not the name of one, it
  -- fails.
  pub list-IsVisible :
      (lower : Text → Text) (user : AuthUser) (query : ListExpensesQuery) (s : Store)
      → Listed lower user query s (list db lower user query s)
  unfolding list
  list-IsVisible lower user query s = by_status (status_filter query.status) refl
    where
      by_status :
          (r : Result (Option ExpenseStatus))
          → status_filter query.status ≡ r
          → Listed lower user query s (list db lower user query s)
      by_status (err x) e = rw e (refl, filter-unknown query.status x e)
      by_status (ok status) e =
          let selects = is_listed lower user query.category status in
          let found = db.find_many newest_first selects s.expenses in
          let limit = min query.limit 100 in
          let skipped = (query.page - 1) * limit in
          let short = length-take limit (drop skipped found) in
          rw e (
            refl,
            λ a m.
                let n = In-drop skipped found a (In-take limit (drop skipped found) a m) in
                let (k, t) = laws.find_many_sound newest_first selects s.expenses a n in
                (k, is_listed-IsVisible lower user query.category status a t),
            omega arith,
            omega arith,
          )
