-- ===== src/Expenses/Writes.antt =====
-- The tests and changes of rows that expenses.service.ts hands to the database, and its writing
-- transactions.
use expenseflow.Common.{
  ℕ, ◌+◌, Text, text, text_is_eq, number_eq, List, Option, none, some, Bool, ◌==◌, ◌&&◌, ◌||◌, not,
  ok, Error, conflict, internal, if◌then◌else◌,
}
use expenseflow.Schema.{
  Role, User, Expense, ExpenseStatus, Approval, ApprovalLevel, ApprovalStatus, expense_status_eq,
  level_eq,
}
use expenseflow.Database.{
  Client, Env, Action, ◌>>=◌, ◌>>◌, pure, gets, throw_if, or_throw, with_tenant,
}
use expenseflow.Policies.{PolicyEvaluation}

-- `AuthUser` of common/decorators/current-user.decorator.ts.
pub record AuthUser : Type 0 where
  pub sub : Text
  pub email : Text
  pub organization_id : Text
  pub role : Role

abbrev pub stale_expense_conflict : Error
stale_expense_conflict =
    conflict "This expense changed after you loaded it. Refresh the page and try again."

abbrev pub set_expenses : List Expense → Action (Unit {0})
set_expenses rows s = (ok tt, record s { expenses = rows })

abbrev pub set_approvals : List Approval → Action (Unit {0})
set_approvals rows s = (ok tt, record s { approvals = rows })

abbrev pub same_expense_id : Expense → Expense → Bool
same_expense_id a b = a.id == b.id

-- The unique columns of Approval: `id`, and `expenseId` with `level`.
unfoldable pub approval_clash : Approval → Approval → Bool
approval_clash a b = a.id == b.id || a.expense_id == b.expense_id && a.level == b.level

-- The `where` of both updates: the caller's own draft, at the version that the caller has seen.
unfoldable pub is_own_draft : AuthUser → Text → ℕ → Expense → Bool
is_own_draft user id expected row =
    row.id == id
    && row.organization_id == user.organization_id
    && row.user_id == user.sub
    && row.status == ExpenseStatus.draft
    && row.version == expected

abbrev pub is_decided : ExpenseStatus → Bool
is_decided status = status == ExpenseStatus.approved || status == ExpenseStatus.rejected

-- The `data` of `submit`.
unfoldable pub submitted_row : Env → PolicyEvaluation → ExpenseStatus → Expense → Expense
submitted_row env evaluation status row = record row {
  status = status;
  submitted_at = some env.now;
  version = row.version + 1;
  decided_at = if is_decided status then some env.now else row.decided_at;
  rejection_reason =
      if evaluation.auto_reject
      then some (text "Rejected by expense policy")
      else row.rejection_reason;
}

-- The `data` of `completeReceiptUpload`.
unfoldable pub receipt_row : Text → Expense → Expense
receipt_row storage_uri row = record row {
  receipt_url = some storage_uri;
  version = row.version + 1;
}

unfoldable pub resolve_submission_status : PolicyEvaluation → ExpenseStatus
resolve_submission_status evaluation =
    if evaluation.auto_reject
    then ExpenseStatus.rejected
    else if evaluation.require_manager
    then ExpenseStatus.pending_manager
    else if evaluation.require_finance
    then ExpenseStatus.pending_finance
    else ExpenseStatus.approved

unfoldable pub new_approval : Env → ℕ → Text → ApprovalLevel → ApprovalStatus → User → Approval
new_approval env k expense_id level status approver = record {
  id = env.drawn k;
  expense_id = expense_id;
  approver_id = approver.id;
  level = level;
  status = status;
  comment = none;
  decided_at = none;
  version = 0;
  created_at = env.now;
}

abbrev pub manager_approval : Env → Text → User → Approval
manager_approval env id approver =
    new_approval env 0 id ApprovalLevel.manager ApprovalStatus.pending approver

abbrev pub finance_approval : Env → Text → PolicyEvaluation → User → Approval
finance_approval env id evaluation approver =
    new_approval env 1 id ApprovalLevel.finance
      (if evaluation.require_manager then ApprovalStatus.skipped else ApprovalStatus.pending)
      approver

module _ (db : Client) where
  unfoldable pub create_approval : Approval → Action (Unit {0})
  create_approval row = do
    s ← gets (λ s. s)
    rows ← or_throw (db.create approval_clash row s.approvals) (internal "P2002")
    set_approvals rows

  -- `expense.findUniqueOrThrow`
  unfoldable pub find_expense_or_throw : Text → Action Expense
  find_expense_or_throw id = do
    s ← gets (λ s. s)
    or_throw (db.find_first (λ row. row.id == id) s.expenses) (internal "P2025")

  -- `expense.updateMany`, and the exception unless it changed one row.
  unfoldable pub update_expense : (Expense → Bool) → (Expense → Expense) → Error → Action (Unit {0})
  update_expense selects change stale = do
    s ← gets (λ s. s)
    let changed = db.update_many selects change s.expenses
    set_expenses changed.0
    throw_if (not (changed.1 == 1)) stale

  unfoldable pub route_manager : Env → Text → PolicyEvaluation → Option User → Action (Unit {0})
  route_manager env id evaluation none = pure tt
  route_manager env id evaluation (some manager) =
      if not evaluation.auto_reject && evaluation.require_manager
      then create_approval (manager_approval env id manager)
      else pure tt

  unfoldable pub route_finance : Env → Text → PolicyEvaluation → Option User → Action (Unit {0})
  route_finance env id evaluation none = pure tt
  route_finance env id evaluation (some finance) =
      if not evaluation.auto_reject && evaluation.require_finance
      then create_approval (finance_approval env id evaluation finance)
      else pure tt

  -- The transaction of `submit`.
  unfoldable pub submit_write :
      Env → AuthUser → Text → ℕ → PolicyEvaluation → Option User → Option User → Action Expense
  submit_write env user id expected evaluation manager finance = with_tenant user.organization_id do
    update_expense (is_own_draft user id expected)
        (submitted_row env evaluation (resolve_submission_status evaluation)) stale_expense_conflict
    route_manager env id evaluation manager
    route_finance env id evaluation finance
    find_expense_or_throw id

  -- The transaction of `completeReceiptUpload`.
  unfoldable pub receipt_write : AuthUser → Text → ℕ → Text → Action Expense
  receipt_write user id expected storage_uri = with_tenant user.organization_id do
    update_expense (is_own_draft user id expected) (receipt_row storage_uri) stale_expense_conflict
    find_expense_or_throw id
