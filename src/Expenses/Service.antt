-- ===== src/Expenses/Service.antt =====
-- The methods of `ExpensesService`.
use expenseflow.Common.{
  ℕ, ◌-◌, ◌*◌, min, Text, text, text_is_eq, Option, none, some, Bool, true, false, ◌==◌, ◌&&◌, not,
  internal, bad_request, not_found, forbidden, take, drop, length, number_eq,
}
use expenseflow.Schema.{Role, User, Expense, ExpenseStatus, Metadata, expense_status_eq, role_eq}
use expenseflow.Database.{
  Client, Env, Action, ◌>>=◌, ◌>>◌, pure, gets, throw_if, or_throw, with_tenant,
}
use expenseflow.Audit.{write_log}
use expenseflow.Notifications.{enqueue}
use expenseflow.Policies.{evaluate}
use expenseflow.Receipts.{
  Platform, S3Settings, ReceiptUploadTarget, ReceiptDownload, create_upload_target,
  create_download_url, assert_object_belongs_to_expense, to_storage_uri,
  object_key_from_storage_uri,
}
use expenseflow.Expenses.Writes.{
  AuthUser, stale_expense_conflict, set_expenses, same_expense_id, resolve_submission_status,
  submit_write, receipt_write,
}
use expenseflow.Expenses.Rows.{
  lift, is_employee, is_listed, status_filter, newest_first, oldest_user_first, ceil_div,
  is_manager_of, has_role_in, new_expense, log_of, submitted_message, is_none, non_empty,
  CreateExpenseDto, ListExpensesQuery, ExpensePage, Submission,
}

module _ (db : Client) where
  unfoldable pub create : Env → AuthUser → CreateExpenseDto → Action Expense
  create env user dto = do
    let expense = new_expense env user dto
    with_tenant user.organization_id do
      s ← gets (λ s. s)
      rows ← or_throw (db.create same_expense_id expense s.expenses) (internal "P2002")
      set_expenses rows
    write_log db user.organization_id (log_of env 1 user expense.id "expense.created" none)
    pure expense

  unfoldable pub list : (Text → Text) → AuthUser → ListExpensesQuery → Action ExpensePage
  list lower user query = do
    let limit = min query.limit 100
    found ← with_tenant user.organization_id (
        lift (status_filter query.status) >>= λ status.
        gets λ s. db.find_many newest_first (is_listed lower user query.category status) s.expenses)
    pure (record {
      items = take limit (drop ((query.page - 1) * limit) found);
      page = query.page;
      limit = limit;
      total = length found;
      pages = ceil_div (length found) limit;
    })

  unfoldable pub get : AuthUser → Text → Action Expense
  get user id = do
    found ← with_tenant user.organization_id (
        gets λ s.
          db.find_first (λ row. row.id == id && row.organization_id == user.organization_id)
            s.expenses)
    expense ← or_throw found (not_found "Expense not found")
    throw_if (is_employee user && not (expense.user_id == user.sub))
        (forbidden "You can only view your own expenses")
    pure expense

  -- The `where` of the reads that only the owner may make.
  unfoldable pub find_owned : AuthUser → Text → Action Expense
  find_owned user id = do
    found ← with_tenant user.organization_id (
        gets λ s.
          db.find_first
            (λ row.
              row.id == id
              && row.organization_id == user.organization_id
              && row.user_id == user.sub)
            s.expenses)
    or_throw found (not_found "Expense not found")

  unfoldable pub get_owned_draft_expense : AuthUser → Text → Action Expense
  get_owned_draft_expense user id = do
    expense ← find_owned user id
    throw_if (not (expense.status == ExpenseStatus.draft))
        (bad_request "Receipts can only be changed while an expense is a draft")
    pure expense

  unfoldable pub prepare_receipt_upload :
      Platform → S3Settings → Env → AuthUser → Text → Text → Action ReceiptUploadTarget
  prepare_receipt_upload platform settings env user id content_type = do
    get_owned_draft_expense user id
    lift (
        create_upload_target platform settings env.now (env.drawn 0) user.organization_id id
          content_type)

  unfoldable pub complete_receipt_upload :
      S3Settings → Env → AuthUser → Text → Text → ℕ → Action Expense
  complete_receipt_upload settings env user id object_key expected = do
    current ← get_owned_draft_expense user id
    throw_if (not (current.version == expected)) stale_expense_conflict
    lift (assert_object_belongs_to_expense user.organization_id id object_key)
    storage_uri ← lift (to_storage_uri settings object_key)
    expense ← receipt_write db user id expected storage_uri
    write_log db user.organization_id (
        log_of env 0 user id "expense.receipt_attached"
          (some (Metadata.receipt_attached object_key expense.version)))
    pure expense

  unfoldable pub get_receipt_download :
      Platform → S3Settings → Env → AuthUser → Text → Action ReceiptDownload
  get_receipt_download platform settings env user id = do
    expense ← get user id
    storage_uri ←
        or_throw (non_empty expense.receipt_url) (not_found "This expense does not have a receipt")
    object_key ← lift (object_key_from_storage_uri settings storage_uri)
    lift (create_download_url platform settings env.now object_key)

  unfoldable pub find_manager_approver : Text → Option Text → Action (Option User)
  find_manager_approver organization_id manager_id = elim (non_empty manager_id) [
    | none ↦ pure none
    | some id ↦ gets λ s. db.find_first (is_manager_of organization_id id) s.users
  ]

  unfoldable pub find_finance_approver : Text → Action (Option User)
  find_finance_approver organization_id = do
    finance ←
        gets
          λ s. db.find_first_by oldest_user_first (has_role_in organization_id Role.finance) s.users
    elim finance [
      | some approver ↦ pure (some approver)
      | none ↦
          gets
            λ s. db.find_first_by oldest_user_first (has_role_in organization_id Role.admin) s.users
    ]

  -- `include: { user: true }`: the owner that the foreign key names.
  unfoldable pub owner_of : Expense → Action User
  owner_of expense = do
    s ← gets (λ s. s)
    or_throw (db.find_first (λ row. row.id == expense.user_id) s.users)
        (internal "inconsistent relation")

  unfoldable pub notify_submitted :
      Env → User → Expense → ExpenseStatus → Option User → Option User → Action (Unit {0})
  notify_submitted env owner expense ExpenseStatus.pending_manager (some manager) finance =
      enqueue env (env.drawn 3) "approval.requested" manager.email
        (text "Expense approval requested") (submitted_message owner expense)
  notify_submitted env owner expense ExpenseStatus.pending_finance manager (some finance) =
      enqueue env (env.drawn 3) "approval.requested" finance.email
        (text "Finance approval requested") (submitted_message owner expense)
  notify_submitted env owner expense status manager finance = pure tt

  unfoldable pub find_manager_if : Bool → Text → Option Text → Action (Option User)
  find_manager_if true organization_id manager_id = find_manager_approver organization_id manager_id
  find_manager_if false organization_id manager_id = pure none

  unfoldable pub find_finance_if : Bool → Text → Action (Option User)
  find_finance_if true organization_id = find_finance_approver organization_id
  find_finance_if false organization_id = pure none

  unfoldable pub prepare_submission : (Text → Text) → AuthUser → Text → ℕ → Action Submission
  prepare_submission lower user id expected = do
    expense ← find_owned user id
    owner ← owner_of expense
    throw_if (not (expense.status == ExpenseStatus.draft))
        (bad_request "Only draft expenses can be submitted")
    throw_if (not (expense.version == expected)) stale_expense_conflict
    evaluation ← evaluate db lower user.organization_id expense.amount_cents expense.category
    manager ← find_manager_if evaluation.require_manager user.organization_id owner.manager_id
    finance ← find_finance_if evaluation.require_finance user.organization_id
    throw_if (evaluation.require_manager && is_none manager)
        (bad_request "No manager is configured for this employee")
    throw_if (evaluation.require_finance && is_none finance)
        (bad_request "No finance approver is configured")
    pure (record {
      expense = expense;
      owner = owner;
      evaluation = evaluation;
      manager = manager;
      finance = finance;
    })

  -- What `submit` does once its transaction has been committed.
  unfoldable pub finish_submission : Env → AuthUser → Text → Submission → Expense → Action Expense
  finish_submission env user id plan updated = do
    let status = resolve_submission_status plan.evaluation
    write_log db user.organization_id (
        log_of env 2 user id "expense.submitted"
          (some (Metadata.submitted status updated.version plan.evaluation.matched_policy_ids)))
    notify_submitted env plan.owner plan.expense status plan.manager plan.finance
    pure updated

  unfoldable pub submit : (Text → Text) → Env → AuthUser → Text → ℕ → Action Expense
  submit lower env user id expected = do
    plan ← prepare_submission lower user id expected
    updated ← submit_write db env user id expected plan.evaluation plan.manager plan.finance
    finish_submission env user id plan updated
