-- ===== src/Tests/Routes.antt =====
-- A route that is asked twice, and the routes of one user.
use expenseflow.Common.{
  ℕ, ◌≡◌, text_eq, true, refl, [], ◌∷◌, none, some, ◌⊎◌, err, forbidden, arith,
}
use expenseflow.Schema.{Expense, Store}
use expenseflow.Database.{memory, memory-IsClient}
use expenseflow.Database.{Runs}
use expenseflow.Audit.{write_log}
use expenseflow.Receipts.{S3Settings}
use expenseflow.Expenses.{CreateExpenseDto, create, new_expense, log_of}
use expenseflow.Approvals.{Decision, DecideApprovalDto}
use expenseflow.Permissions.{permissions_can_activate, has_permission, role_permissions}
use expenseflow.Idempotency.{claim}
use expenseflow.Workflow.Reachable.{WorkflowRequest}
use expenseflow.Workflow.Requests.{ended}
use expenseflow.Endpoints.{required_of, caller_of, is_granted, handle, serve}
use expenseflow.Endpoints.Routes.{serve-once, serve-separated}
use expenseflow.Tests.{store, employee, expense_id, env_at, same_case}
use expenseflow.Tests.Keys.{
  json, json-IsJson, hashing, request, input, claimed_store, valid, claims,
}

abbrev settings : S3Settings
settings = record {
  bucket = none;
  region = none;
  access_key_id = none;
  secret_access_key = none;
  session_token = none;
}

abbrev dto : CreateExpenseDto
dto = record {
  merchant = 77 ∷ [];
  amount_cents = 12050;
  currency = none;
  category = 3 ∷ [];
  description = none;
  incurred_at = 5;
}

abbrev made : WorkflowRequest
made = WorkflowRequest.create_expense (env_at 49 59) employee dto

abbrev again : WorkflowRequest
again = WorkflowRequest.create_expense (env_at 190 69) employee dto

abbrev version_of : Expense → ℕ
version_of e = e.version

abbrev handled : Store
handled = (handle memory same_case settings made claimed_store).1

handles :
    Runs
      (handle memory same_case settings made)
      claimed_store
      (new_expense (env_at 49 59) employee dto)
      handled
unfolding handle create new_expense write_log log_of text_eq claim
handles =
    ended (handle memory same_case settings made claimed_store)
      (new_expense (env_at 49 59) employee dto) refl

granted : is_granted made ≡ true
unfolding is_granted permissions_can_activate has_permission role_permissions required_of caller_of
granted = refl

granted_again : is_granted again ≡ true
unfolding is_granted permissions_can_activate has_permission role_permissions required_of caller_of
granted_again = refl

same_caller : caller_of again ≡ caller_of made
unfolding caller_of
same_caller = refl

serve-once_example :
    (s' : Store) × (s' ≡ record handled { idempotency_records = s'.idempotency_records })
    × Runs
        (serve memory same_case settings json hashing version_of 2 (env_at 100 40) request made)
        store
        (201, some 0)
        s'
    × Runs
        (serve memory same_case settings json hashing version_of 1 (env_at 200 41) request again)
        s'
        (201, some 0)
        s'
unfolding new_expense caller_of
serve-once_example =
    serve-once memory memory-IsClient same_case settings json hashing version_of 2 0 (env_at 100 40)
      (env_at 200 41) request made again input (40 ∷ 0 ∷ [])
      (new_expense (env_at 49 59) employee dto) store claimed_store handled json-IsJson granted
      granted_again same_caller valid claims handles (omega arith)

abbrev approve : DecideApprovalDto
approve = record { decision = Decision.approve; comment = none; expected_version = 0 }

serve-separated_example :
    (serve memory same_case settings json hashing version_of 2
        (env_at 100 40)
        request
        (WorkflowRequest.submit_expense (env_at 50 60) employee expense_id 0)
        store
      ≡ (err (forbidden "Forbidden resource"), store))
    ⊎ (serve memory same_case settings json hashing version_of 2
          (env_at 100 40)
          request
          (WorkflowRequest.decide_approval (env_at 51 61) employee (60 ∷ []) approve)
          store
        ≡ (err (forbidden "Forbidden resource"), store))
serve-separated_example =
    serve-separated memory memory-IsClient same_case settings json hashing version_of 2
      (env_at 100 40) request (env_at 50 60) (env_at 51 61) employee expense_id (60 ∷ []) 0 approve
      store
