-- ===== src/Tests/Histories.antt =====
-- What a submission makes of a draft, and of the history of the draft.
use expenseflow.Common.{refl, inl, In}
use expenseflow.Schema.{Expense}
use expenseflow.Database.{memory, memory-IsClient}
use expenseflow.Receipts.{S3Settings}
use expenseflow.Workflow.Lifecycle.{Step}
use expenseflow.Workflow.Steps.{perform-Step}
use expenseflow.Workflow.Histories.{IsLater, Reaches-IsLater}
use expenseflow.Workflow.Reachable.{WorkflowRequest, perform, Reaches}
use expenseflow.Tests.{store, draft, employee, expense_id, env_at, same_case}
use expenseflow.Common.{none}

abbrev settings : S3Settings
settings = record {
  bucket = none;
  region = none;
  access_key_id = none;
  secret_access_key = none;
  session_token = none;
}

abbrev sent : WorkflowRequest
sent = WorkflowRequest.submit_expense (env_at 50 60) employee expense_id 0

perform-Step_example : Step store.expenses (perform memory same_case settings sent store).expenses
perform-Step_example = perform-Step memory memory-IsClient same_case settings sent store

Reaches-IsLater_example :
    (e : Expense) × In e (perform memory same_case settings sent store).expenses × IsLater draft e
Reaches-IsLater_example =
    Reaches-IsLater memory memory-IsClient same_case settings store
      (perform memory same_case settings sent store) draft (Reaches.after store sent Reaches.start)
      (inl refl)
