-- ===== src/Approvals/Service.antt =====
-- The methods of `ApprovalsService`: what `decide` reads, the transaction that it writes in, and
-- the method as a whole.
use expenseflow.Common.{
  ◌+◌, Text, text, text_is_eq, number_eq, List, ◌++◌, Option, none, some, Bool, true, false, ◌==◌,
  ◌&&◌, not, internal, bad_request, not_found, if◌then◌else◌,
}
use expenseflow.Schema.{
  Expense, ExpenseStatus, Approval, ApprovalLevel, ApprovalStatus, Metadata, expense_status_eq,
  approval_status_eq, level_eq,
}
use expenseflow.Database.{
  Client, Env, Action, ◌>>=◌, ◌>>◌, pure, gets, throw_if, or_throw, with_tenant,
}
use expenseflow.Audit.{write_log}
use expenseflow.Notifications.{enqueue, status_name_lower}
use expenseflow.Expenses.{
  AuthUser, set_approvals, update_expense, find_expense_or_throw, owner_of, log_of,
}
use expenseflow.Approvals.Rows.{
  stale_approval_conflict, is_approve, oldest_first, in_organization, expected_expense_status,
  is_undecided, decided_approval, is_skipped, woken_approval, is_as_seen, decided_expense,
  rejected_outcome, approved_outcome, finance_outcome, find_finance, decision_action,
  decision_message, DecideApprovalDto, Pending, Outcome,
}

module _ (db : Client) where
  unfoldable pub inbox : AuthUser → Action (List Approval)
  inbox user = with_tenant user.organization_id (
      gets λ s.
        db.find_many oldest_first
          (λ row.
            row.approver_id == user.sub
            && row.status == ApprovalStatus.pending
            && in_organization user.organization_id s.expenses row)
          s.approvals)

  -- The first transaction of `decide`.
  unfoldable pub find_pending : AuthUser → Text → Action Pending
  find_pending user id = do
    s ← gets (λ s. s)
    approval ←
        or_throw
          (db.find_first
            (λ row.
              row.id == id
              && row.approver_id == user.sub
              && in_organization user.organization_id s.expenses row)
            s.approvals)
          (not_found "Approval not found")
    expense ←
        or_throw (db.find_first (λ row. row.id == approval.expense_id) s.expenses)
          (internal "inconsistent relation")
    owner ← owner_of db expense
    pure (record {
      approval = approval;
      expense = expense;
      owner = owner;
      approvals = db.find_many oldest_first (λ row. row.expense_id == expense.id) s.approvals;
    })

  -- The checks of `decide` on what it has read.
  unfoldable pub check_pending : DecideApprovalDto → Pending → Action (Unit {0})
  check_pending dto seen = do
    throw_if (not (seen.approval.status == ApprovalStatus.pending)) stale_approval_conflict
    throw_if (not (seen.approval.version == dto.expected_version)) stale_approval_conflict
    throw_if (not (seen.expense.status == expected_expense_status seen.approval.level))
        stale_approval_conflict

  -- `approval.updateMany`, and the exception unless it changed one row.
  unfoldable pub update_approval : (Approval → Bool) → (Approval → Approval) → Action (Unit {0})
  update_approval selects change = do
    s ← gets (λ s. s)
    let changed = db.update_many selects change s.approvals
    set_approvals changed.0
    throw_if (not (changed.1 == 1)) stale_approval_conflict

  unfoldable pub route_approved : ApprovalLevel → Option Approval → Action Outcome
  route_approved ApprovalLevel.finance waiting = pure approved_outcome
  route_approved ApprovalLevel.manager none = pure approved_outcome
  route_approved ApprovalLevel.manager (some finance) =
      update_approval (is_skipped finance) woken_approval >> pure finance_outcome

  unfoldable pub route : DecideApprovalDto → Pending → Action Outcome
  route dto seen =
      if is_approve dto.decision
      then route_approved seen.approval.level (find_finance seen.approvals)
      else pure (rejected_outcome seen.approval.level dto.comment)

  -- The transaction that writes.
  unfoldable pub decide_write : Env → AuthUser → Text → DecideApprovalDto → Pending → Action Expense
  decide_write env user id dto seen = with_tenant user.organization_id do
    update_approval (is_undecided user id dto.expected_version) (decided_approval env dto)
    outcome ← route dto seen
    update_expense db
        (is_as_seen seen.approval.expense_id (expected_expense_status seen.approval.level)
          seen.expense.version)
        (decided_expense env outcome) stale_approval_conflict
    find_expense_or_throw db seen.approval.expense_id

  unfoldable pub notify_next_finance_approver : Env → Text → Text → Action (Unit {0})
  notify_next_finance_approver env organization_id expense_id = do
    s ← gets (λ s. s)
    next ←
        or_throw
          (db.find_first
            (λ row.
              row.expense_id == expense_id
              && row.level == ApprovalLevel.finance
              && row.status == ApprovalStatus.pending)
            s.approvals)
          (bad_request "Finance approval route is missing")
    approver ←
        or_throw (db.find_first (λ row. row.id == next.approver_id) s.users)
          (internal "inconsistent relation")
    enqueue env (env.drawn 2) "approval.requested" approver.email
        (text "Finance approval requested")
        (text "Expense " ++ (expense_id ++ text " is ready for finance review."))

  unfoldable pub notify_if_finance : Env → Text → Text → Bool → Action (Unit {0})
  notify_if_finance env organization_id expense_id true =
      notify_next_finance_approver env organization_id expense_id
  notify_if_finance env organization_id expense_id false = pure tt

  -- What `decide` does once its transaction has been committed.
  unfoldable pub finish_decision :
      Env → AuthUser → DecideApprovalDto → Pending → Expense → Action Expense
  finish_decision env user dto seen result = do
    write_log db user.organization_id (
        log_of env 0 user seen.approval.expense_id (decision_action dto.decision) (
          some (
            Metadata.decided seen.approval.level dto.comment (dto.expected_version + 1)
              result.version)))
    enqueue env (env.drawn 1) "expense.decision" seen.owner.email
        (text "Expense " ++ status_name_lower result.status) (decision_message seen.expense result)
    notify_if_finance env user.organization_id seen.approval.expense_id
        (result.status == ExpenseStatus.pending_finance)
    pure result

  unfoldable pub decide : Env → AuthUser → Text → DecideApprovalDto → Action Expense
  decide env user id dto = do
    seen ← with_tenant user.organization_id (find_pending user id)
    check_pending dto seen
    result ← decide_write env user id dto seen
    finish_decision env user dto seen result
