-- ===== src/Expenses/Inversion.antt =====
-- What the writing transactions of expenses.service.ts have done when they end well.
use expenseflow.Common.{
  ◌≡◌, ap, sym, Text, ℕ, List, [], ◌∷◌, ◌++◌, Option, none, some, Bool, true, false, not, ◌==◌, eqb,
  ◌&&◌, Error, if◌then◌else◌, arith, In, map_where, count, any, inl, inr, Bool-cases, number_eq,
  ◌∙◌, text_is_eq,
}
use mathlib.Core.List.{append-nil}
use expenseflow.Schema.{Expense, Approval, User, Store}
use expenseflow.Database.{
  Client, IsClient, Env, pure, Runs, after-ok, commit-ok, or_throw-ok, throw_if-ok,
}
use expenseflow.Policies.{PolicyEvaluation}
use expenseflow.Expenses.Writes.{
  AuthUser, approval_clash, is_own_draft, submitted_row, receipt_row, resolve_submission_status,
  manager_approval, finance_approval, create_approval, find_expense_or_throw, update_expense,
  route_manager, route_finance, submit_write, receipt_write,
}

-- The approvals that a submission routes, as lists.
abbrev pub manager_rows : Env → Text → PolicyEvaluation → Option User → List Approval
manager_rows env id evaluation none = []
manager_rows env id evaluation (some manager) =
    if not evaluation.auto_reject && evaluation.require_manager
    then manager_approval env id manager ∷ []
    else []

abbrev pub finance_rows : Env → Text → PolicyEvaluation → Option User → List Approval
finance_rows env id evaluation none = []
finance_rows env id evaluation (some finance) =
    if not evaluation.auto_reject && evaluation.require_finance
    then finance_approval env id evaluation finance ∷ []
    else []

-- New rows, one after the other, none of which clashes with a row that is there.
abbrev pub Added : List Approval → List Approval → Type 0
Added rows [] = Unit
Added rows (row ∷ new) = (any (approval_clash row) rows ≡ false) × Added (rows ++ row ∷ []) new

module _ (db : Client) (laws : IsClient db) where
  pub update_expense-Runs :
      (p : Expense → Bool) (change : Expense → Expense) (stale : Error) (s s' : Store)
      → Runs (update_expense db p change stale) s tt s'
      → (s' ≡ record s { expenses = map_where p change s.expenses }) × (count p s.expenses ≡ 1)
  unfolding update_expense
  update_expense-Runs p change stale s s' e =
      let e' = rw laws.update_many_lem at e in
      let (one, same) =
        throw_if-ok (not (eqb (count p s.expenses) 1)) stale
          (record s { expenses = map_where p change s.expenses }) s' tt e' in
      (same, ground arith)

  pub create_approval-Runs :
      (row : Approval) (s s' : Store)
      → Runs (create_approval db row) s tt s'
      → (any (approval_clash row) s.approvals ≡ false)
        × (s' ≡ record s { approvals = s.approvals ++ row ∷ [] })
  unfolding create_approval
  create_approval-Runs row s s' e =
      let e' = rw laws.create_lem at e in
      elim (Bool-cases (any (approval_clash row) s.approvals)) [
        | inl clash ↦ absurd (ground arith)
        | inr free ↦ (free, ground arith)
      ]

  pub find_expense_or_throw-Runs :
      (id : Text) (s s' : Store) (e : Expense)
      → Runs (find_expense_or_throw db id) s e s'
      → (s' ≡ s) × In e s.expenses × ((e.id == id) ≡ true)
  unfolding find_expense_or_throw
  find_expense_or_throw-Runs id s s' e h =
      let (found, same) = or_throw-ok _ _ s s' e h in
      let (m, q) = laws.find_first_some _ s.expenses e found in (same, m, q)

  create_if-Runs :
      (b : Bool) (row : Approval) (s s' : Store)
      → Runs (if b then create_approval db row else pure tt) s tt s'
      → Added s.approvals (if b then row ∷ [] else [])
        × (s' ≡ record s { approvals = s.approvals ++ (if b then row ∷ [] else []) })
  create_if-Runs true row s s' e =
      let (free, same) = create_approval-Runs row s s' e in ((free, tt), same)
  create_if-Runs false row s s' e = (tt, rw (append-nil s.approvals) (ap (λ r. r.1) (sym e)))

  pub route_manager-Runs :
      (env : Env) (id : Text) (evaluation : PolicyEvaluation) (manager : Option User) (s s' : Store)
      → Runs (route_manager db env id evaluation manager) s tt s'
      → Added s.approvals (manager_rows env id evaluation manager)
        × (s' ≡ record s { approvals = s.approvals ++ manager_rows env id evaluation manager })
  unfolding route_manager
  route_manager-Runs env id evaluation none s s' e =
      (tt, rw (append-nil s.approvals) (ap (λ r. r.1) (sym e)))
  route_manager-Runs env id evaluation (some manager) s s' e =
      create_if-Runs (not evaluation.auto_reject && evaluation.require_manager)
        (manager_approval env id manager) s s' e

  pub route_finance-Runs :
      (env : Env) (id : Text) (evaluation : PolicyEvaluation) (finance : Option User) (s s' : Store)
      → Runs (route_finance db env id evaluation finance) s tt s'
      → Added s.approvals (finance_rows env id evaluation finance)
        × (s' ≡ record s { approvals = s.approvals ++ finance_rows env id evaluation finance })
  unfolding route_finance
  route_finance-Runs env id evaluation none s s' e =
      (tt, rw (append-nil s.approvals) (ap (λ r. r.1) (sym e)))
  route_finance-Runs env id evaluation (some finance) s s' e =
      create_if-Runs (not evaluation.auto_reject && evaluation.require_finance)
        (finance_approval env id evaluation finance) s s' e

-- What the transaction of `submit` leaves behind.
pub record Submitted (env : Env) (user : AuthUser) (id : Text) (expected : ℕ)
    (evaluation : PolicyEvaluation) (manager finance : Option User) (s : Store) (updated : Expense)
    (s' : Store) : Type 0 where
  pub counted : count (is_own_draft user id expected) s.expenses ≡ 1
  pub manager_added : Added s.approvals (manager_rows env id evaluation manager)
  pub finance_added :
      Added
        (s.approvals ++ manager_rows env id evaluation manager)
        (finance_rows env id evaluation finance)
  pub store : s' ≡ record s {
    expenses =
        map_where
          (is_own_draft user id expected)
          (submitted_row env evaluation (resolve_submission_status evaluation))
          s.expenses;
    approvals =
        (s.approvals ++ manager_rows env id evaluation manager)
        ++ finance_rows env id evaluation finance;
  }
  pub returned : In updated s'.expenses
  pub returned_id : (updated.id == id) ≡ true

module _ (db : Client) (laws : IsClient db) where
  pub submit_write-Submitted :
      (env : Env) (user : AuthUser) (id : Text) (expected : ℕ) (evaluation : PolicyEvaluation)
      (manager finance : Option User) (s s' : Store) (updated : Expense)
      → Runs (submit_write db env user id expected evaluation manager finance) s updated s'
      → Submitted env user id expected evaluation manager finance s updated s'
  unfolding submit_write
  submit_write-Submitted env user id expected evaluation manager finance s s' updated e =
      let e0 = commit-ok _ s s' updated e in
      let (_, s1, r1, e1) = after-ok _ _ s' updated e0 in
      let (_, s2, r2, e2) = after-ok _ _ s' updated e1 in
      let (_, s3, r3, e3) = after-ok _ _ s' updated e2 in
      let (p1, counted) = update_expense-Runs db laws _ _ _ s s1 r1 in
      let (added2, p2) = route_manager-Runs db laws env id evaluation manager s1 s2 r2 in
      let (added3, p3) = route_finance-Runs db laws env id evaluation finance s2 s3 r3 in
      let (p4, member, named) = find_expense_or_throw-Runs db laws id s3 s' updated e3 in
      record {
        counted = counted;
        manager_added = rw p1 at added2;
        finance_added = rw (p2, p1) at added3;
        store = rw (p4, p3, p2, p1);
        returned = rw p4 member;
        returned_id = named;
      }

  -- The transaction of `completeReceiptUpload`.
  pub receipt_write-Runs :
      (user : AuthUser) (id : Text) (expected : ℕ) (uri : Text) (s s' : Store) (updated : Expense)
      → Runs (receipt_write db user id expected uri) s updated s'
      → (s' ≡ record s {
        expenses = map_where (is_own_draft user id expected) (receipt_row uri) s.expenses;
      })
        × (count (is_own_draft user id expected) s.expenses ≡ 1)
  unfolding receipt_write
  receipt_write-Runs user id expected uri s s' updated e =
      let e0 = commit-ok _ s s' updated e in
      let (_, s1, r1, e1) = after-ok _ _ s' updated e0 in
      let (p1, counted) = update_expense-Runs db laws _ _ _ s s1 r1 in
      let (p2, _, _) = find_expense_or_throw-Runs db laws id s1 s' updated e1 in (p2 ∙ p1, counted)
