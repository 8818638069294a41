-- ===== src/Workflow/Steps.antt =====
-- The requests of expenses.service.ts and approvals.service.ts as steps in the life of expenses.
use expenseflow.Common.{ℕ, ◌≡◌, refl, ap, sym, ◌∙◌, subst, Text, Option, Result, ok, err, number_eq}
use expenseflow.Schema.{Expense, User, Store}
use expenseflow.Database.{Client, IsClient, Env, with_tenant, Keeps-after}
use expenseflow.Policies.{PolicyEvaluation}
use expenseflow.Receipts.{S3Settings}
use expenseflow.Expenses.{AuthUser, is_own_draft, submit, submit_write, prepare_submission}
use expenseflow.Expenses.Inversion.{submit_write-Submitted}
use expenseflow.Approvals.{
  DecideApprovalDto, Pending, find_pending, check_pending, decide_write, decide, find_finance,
}
use expenseflow.Approvals.Inversion.{decide_write-Decided}
use expenseflow.Workflow.Requests.{prepare_submission-reads, finish_submission-Untouched}
use expenseflow.Workflow.Deciding.{
  commit-reads, find_pending-reads, check_pending-reads, finish_decision-Untouched,
}
use expenseflow.Workflow.Guards.{submit_write-err}
use expenseflow.Workflow.Stale.{decide_write-err}
use expenseflow.Workflow.Reachable.{WorkflowRequest, perform}
use expenseflow.Workflow.Lifecycle.{
  Step, map_where-Step, submitted_row-IsMoved, Routed-may_move, decided_expense-IsMoved,
}
use expenseflow.Workflow.DraftSteps.{Steps, create-Steps, complete_receipt_upload-Steps}

module _ (db : Client) (laws : IsClient db) where
  submit_write-Steps :
      (env : Env) (user : AuthUser) (id : Text) (expected : ℕ) (evaluation : PolicyEvaluation)
      (manager finance : Option User) (s : Store)
      → Steps s (submit_write db env user id expected evaluation manager finance s).1
  submit_write-Steps env user id expected evaluation manager finance s =
      by_outcome (submit_write db env user id expected evaluation manager finance s) refl
    where
      by_outcome :
          (r : Result Expense × Store)
          → submit_write db env user id expected evaluation manager finance s ≡ r
          → Steps s r.1
      by_outcome (ok updated, s') e =
          let done =
            submit_write-Submitted db laws env user id expected evaluation manager finance s s'
              updated e in
          subst (Step s.expenses) (sym (ap (λ x. x.expenses) done.store)) (
            map_where-Step (is_own_draft user id expected) _ s.expenses
              (submitted_row-IsMoved env user id expected evaluation) done.counted)
      by_outcome (err x, s') e = Step.stay (
          ap (λ y. y.expenses)
            (submit_write-err db laws env user id expected evaluation manager finance s s' x e))

  submit-Steps :
      (lower : Text → Text) (env : Env) (user : AuthUser) (id : Text) (expected : ℕ) (s : Store)
      → Steps s (submit db lower env user id expected s).1
  unfolding submit
  submit-Steps lower env user id expected s =
      Keeps-after (Steps s) (prepare_submission db lower user id expected s) _
        (Step.stay (ap (λ y. y.expenses) unread))
        λ plan e.
          let u =
            submit_write db env user id expected plan.evaluation plan.manager plan.finance t in
          let written : Steps s u.1 =
            subst (λ y. Steps y u.1) unread
              (submit_write-Steps env user id expected plan.evaluation plan.manager plan.finance
                t) in
          Keeps-after (Steps s) u _ written λ updated e'.
            subst (Step s.expenses)
              (sym (finish_submission-Untouched db env user id plan updated u.1).0) written
    where
      t : Store
      t = (prepare_submission db lower user id expected s).1

      unread : t ≡ s
      unread = prepare_submission-reads db lower user id expected s

  decide_write-Steps :
      (env : Env) (user : AuthUser) (id : Text) (dto : DecideApprovalDto) (seen : Pending)
      (s : Store)
      → Steps s (decide_write db env user id dto seen s).1
  decide_write-Steps env user id dto seen s =
      by_outcome (decide_write db env user id dto seen s) refl
    where
      by_outcome :
          (r : Result Expense × Store) → decide_write db env user id dto seen s ≡ r → Steps s r.1
      by_outcome (ok result, s') e =
          let done = decide_write-Decided db laws env user id dto seen s s' result e in
          let may =
            Routed-may_move dto.decision dto.comment seen.approval.level
              (find_finance seen.approvals) _ s'.approvals done.outcome done.routed in
          subst (Step s.expenses) (sym done.expenses) (
            map_where-Step _ _ s.expenses
              (λ row as_seen.
                decided_expense-IsMoved env seen.approval.expense_id seen.approval.level
                  seen.expense.version done.outcome row may as_seen)
              done.moved_one)
      by_outcome (err x, s') e =
          Step.stay (ap (λ y. y.expenses) (decide_write-err db laws env user id dto seen s s' x e))

  decide-Steps :
      (env : Env) (user : AuthUser) (id : Text) (dto : DecideApprovalDto) (s : Store)
      → Steps s (decide db env user id dto s).1
  unfolding decide
  decide-Steps env user id dto s =
      Keeps-after (Steps s) read _ (Step.stay (ap (λ y. y.expenses) unread)) λ seen e.
        let checked = check_pending db dto seen read.1 in
        let same : checked.1 ≡ s = check_pending-reads db dto seen read.1 ∙ unread in
        Keeps-after (Steps s) checked _ (Step.stay (ap (λ y. y.expenses) same)) λ u e'.
          let written = decide_write db env user id dto seen checked.1 in
          let moved : Steps s written.1 =
            subst (λ y. Steps y written.1) same
              (decide_write-Steps env user id dto seen checked.1) in
          Keeps-after (Steps s) written _ moved λ result e''.
            subst (Step s.expenses)
              (sym (finish_decision-Untouched db env user dto seen result written.1).0) moved
    where
      read : Result Pending × Store
      read = with_tenant user.organization_id (find_pending db user id) s

      unread : read.1 ≡ s
      unread = commit-reads (find_pending db user id s) s (find_pending-reads db user id s)

-- What the services promise of the table Expense: one step in the life of one expense.
module _ (db : Client) (laws : IsClient db) (lower : Text → Text) (settings : S3Settings) where
  -- Every call of `create`, `completeReceiptUpload`, `submit` or `decide`, on any store and
  -- however it ends, is a step of the life of expenses: the table Expense stays as it is, or
  -- gets one new draft of version 0 with an id of its own, or one expense moves along an arrow
  -- of `may_move`, its version goes up by one, and of its other columns only receipt, reason and
  -- times change.
  pub perform-Step :
      (request : WorkflowRequest) (s : Store)
      → Step s.expenses (perform db lower settings request s).expenses
  unfolding perform
  perform-Step (WorkflowRequest.create_expense env user dto) s = create-Steps db laws env user dto s
  perform-Step (WorkflowRequest.attach_receipt env user id object_key expected) s =
      complete_receipt_upload-Steps db laws settings env user id object_key expected s
  perform-Step (WorkflowRequest.submit_expense env user id expected) s =
      submit-Steps db laws lower env user id expected s
  perform-Step (WorkflowRequest.decide_approval env user id dto) s =
      decide-Steps db laws env user id dto s
