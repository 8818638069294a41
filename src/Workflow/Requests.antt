-- ===== src/Workflow/Requests.antt =====
-- `submit` of expenses.service.ts as a whole over consistent tables.
use expenseflow.Common.{
  ◌≡◌, refl, ℕ, Text, String, Option, Bool, Result, ok, err, arith, number_eq, sym, subst, ap,
}
use mathlib.Core.Path.{subst₂}
use expenseflow.Schema.{Expense, ExpenseStatus, User, Store, AuditLog, expense_status_eq}
use expenseflow.Database.{Client, IsClient, Env, commit-err, Keeps-after}
use expenseflow.Audit.{write_log}
use expenseflow.Notifications.{enqueue}
use expenseflow.Policies.{evaluate, PolicyEvaluation}
use expenseflow.Expenses.{
  AuthUser, Submission, prepare_submission, find_owned, owner_of, find_manager_if, find_finance_if,
  find_manager_approver, find_finance_approver, notify_submitted, submit_write, submit,
  finish_submission,
}
use expenseflow.Expenses.Inversion.{submit_write-Submitted}
use expenseflow.Workflow.Consistent.{IsConsistent}
use expenseflow.Workflow.Submission.{HasApprovers, submitted-IsConsistent}

abbrev pub Consistent : Store → Type 0
Consistent s = IsConsistent s.expenses s.approvals

-- The tables of the workflow are left alone.
abbrev pub Untouched : Store → Store → Type 0
Untouched s s' = (s'.expenses ≡ s.expenses) × (s'.approvals ≡ s.approvals)

module _ (db : Client) where
  pub write_log-Untouched :
      (o : Text) (row : AuditLog) (s : Store) → Untouched s (write_log db o row s).1
  unfolding write_log
  write_log-Untouched o row s = ground arith

  pub enqueue-Untouched :
      (env : Env) (span : Text) (kind : String) (recipient subject message : Text) (s : Store)
      → Untouched s (enqueue env span kind recipient subject message s).1
  unfolding enqueue
  enqueue-Untouched env span kind recipient subject message s = (refl, refl)

  notify_submitted-Untouched :
      (env : Env) (owner : User) (e : Expense) (st : ExpenseStatus) (m f : Option User) (s : Store)
      → Untouched s (notify_submitted db env owner e st m f s).1
  unfolding notify_submitted enqueue
  notify_submitted-Untouched env owner e st m f s = ground arith

  find_owned-reads : (user : AuthUser) (id : Text) (s : Store) → (find_owned db user id s).1 ≡ s
  unfolding find_owned
  find_owned-reads user id s = ground arith

  owner_of-reads : (e : Expense) (s : Store) → (owner_of db e s).1 ≡ s
  unfolding owner_of
  owner_of-reads e s = ground arith

  find_manager_if-reads :
      (b : Bool) (o : Text) (m : Option Text) (s : Store) → (find_manager_if db b o m s).1 ≡ s
  unfolding find_manager_if find_manager_approver
  find_manager_if-reads b o m s = ground arith

  find_finance_if-reads : (b : Bool) (o : Text) (s : Store) → (find_finance_if db b o s).1 ≡ s
  unfolding find_finance_if find_finance_approver
  find_finance_if-reads b o s = ground arith

  pub prepare_submission-reads :
      (lower : Text → Text) (user : AuthUser) (id : Text) (expected : ℕ) (s : Store)
      → (prepare_submission db lower user id expected s).1 ≡ s
  unfolding prepare_submission evaluate
  prepare_submission-reads lower user id expected s =
      grind (arith, find_owned-reads, owner_of-reads, find_manager_if-reads, find_finance_if-reads)

  prepare_submission-HasApprovers :
      (lower : Text → Text) (user : AuthUser) (id : Text) (expected : ℕ) (s s' : Store)
      (plan : Submission)
      → prepare_submission db lower user id expected s ≡ (ok plan, s')
      → HasApprovers plan.evaluation plan.manager plan.finance
  unfolding prepare_submission evaluate
  prepare_submission-HasApprovers lower user id expected s s' plan e = (ground arith, ground arith)

  pub finish_submission-Untouched :
      (env : Env) (user : AuthUser) (id : Text) (plan : Submission) (updated : Expense) (s : Store)
      → Untouched s (finish_submission db env user id plan updated s).1
  unfolding finish_submission
  finish_submission-Untouched env user id plan updated s =
      grind (arith, write_log-Untouched, notify_submitted-Untouched)

pub Untouched-Consistent : (s s' : Store) → Untouched s s' → Consistent s → Consistent s'
Untouched-Consistent s s' (e, a) inv = subst₂ IsConsistent (sym e) (sym a) inv

-- The outcome of an action that is known to have ended well.
pub ended : {A : Type 0} (r : Result A × Store) (a : A) → r.0 ≡ ok a → r ≡ (ok a, r.1)
ended r a e = ap (λ x. (x, r.1)) e

module _ (db : Client) (laws : IsClient db) where
  -- The writing transaction of `submit`.
  pub submit_write-IsConsistent :
      (env : Env) (user : AuthUser) (id : Text) (expected : ℕ) (evaluation : PolicyEvaluation)
      (manager finance : Option User) (s : Store)
      → HasApprovers evaluation manager finance
      → Consistent s
      → Consistent (submit_write db env user id expected evaluation manager finance s).1
  unfolding submit_write
  submit_write-IsConsistent env user id expected evaluation manager finance s approvers inv =
      by_outcome (submit_write db env user id expected evaluation manager finance s) refl
    where
      by_outcome :
          (r : Result Expense × Store)
          → submit_write db env user id expected evaluation manager finance s ≡ r
          → Consistent r.1
      by_outcome (ok updated, s') e =
          let done =
            submit_write-Submitted db laws env user id expected evaluation manager finance s s'
              updated e in
          subst₂ IsConsistent (sym (ap (λ x. x.expenses) done.store))
            (sym (ap (λ x. x.approvals) done.store))
            (submitted-IsConsistent env user id expected evaluation manager finance s.expenses
              s.approvals inv done.counted done.manager_added done.finance_added approvers)
      by_outcome (err x, s') e = subst Consistent (sym (commit-err _ s s' x e)) inv

  -- If the tables Expense and Approval are consistent, they are so after any call of `submit`,
  -- whatever it ends with.
  pub submit-IsConsistent :
      (lower : Text → Text) (env : Env) (user : AuthUser) (id : Text) (expected : ℕ) (s : Store)
      → Consistent s
      → Consistent (submit db lower env user id expected s).1
  unfolding submit
  submit-IsConsistent lower env user id expected s inv =
      Keeps-after Consistent (prepare_submission db lower user id expected s) _ read λ plan e.
        let written =
          submit_write-IsConsistent env user id expected plan.evaluation plan.manager plan.finance t
            (prepare_submission-HasApprovers db lower user id expected s t plan (ended _ plan e))
            read in
        let u = submit_write db env user id expected plan.evaluation plan.manager plan.finance t in
        Keeps-after Consistent u _ written λ updated e'.
          Untouched-Consistent u.1 (finish_submission db env user id plan updated u.1).1
            (finish_submission-Untouched db env user id plan updated u.1) written
    where
      t : Store
      t = (prepare_submission db lower user id expected s).1

      read : Consistent t
      read = subst Consistent (sym (prepare_submission-reads db lower user id expected s)) inv
