-- ===== src/Workflow/Reachable.antt =====
-- Sequences of requests to expenses.service.ts and approvals.service.ts.
use mathlib.Core.Path.{subst₂}
use expenseflow.Workflow.Consistent.{IsConsistent}
use expenseflow.Common.{◌≡◌, sym, ℕ, Text, []}
use expenseflow.Schema.{Store}
use expenseflow.Database.{Client, IsClient, Env}
use expenseflow.Receipts.{S3Settings}
use expenseflow.Expenses.{AuthUser, CreateExpenseDto, create, complete_receipt_upload, submit}
use expenseflow.Approvals.{DecideApprovalDto, decide}
use expenseflow.Workflow.Requests.{Consistent, submit-IsConsistent}
use expenseflow.Workflow.Deciding.{decide-IsConsistent}
use expenseflow.Workflow.Drafts.{create-IsConsistent, complete_receipt_upload-IsConsistent}

-- A request that writes expenses or approvals, by a caller, with what it draws from outside.
pub data WorkflowRequest : Type 0 where
  create_expense : Env → AuthUser → CreateExpenseDto → WorkflowRequest
  attach_receipt : Env → AuthUser → (id object_key : Text) → (expected : ℕ) → WorkflowRequest
  submit_expense : Env → AuthUser → (id : Text) → (expected : ℕ) → WorkflowRequest
  decide_approval : Env → AuthUser → (id : Text) → DecideApprovalDto → WorkflowRequest

empty-IsConsistent : IsConsistent [] []
empty-IsConsistent = record {
  expense_ids = λ d e m n same. absurd m;
  unique = λ a b m n c. absurd m;
  owned = λ a m. absurd m;
  allowed = λ e a m n same. absurd m;
  awaiting = λ e level m waits. absurd m;
}

module _ (db : Client) (lower : Text → Text) (settings : S3Settings) where
  -- The store after a request, however it ends.
  unfoldable pub perform : WorkflowRequest → Store → Store
  perform (WorkflowRequest.create_expense env user dto) s = (create db env user dto s).1
  perform (WorkflowRequest.attach_receipt env user id object_key expected) s =
      (complete_receipt_upload db settings env user id object_key expected s).1
  perform (WorkflowRequest.submit_expense env user id expected) s =
      (submit db lower env user id expected s).1
  perform (WorkflowRequest.decide_approval env user id dto) s = (decide db env user id dto s).1

  -- The states that requests lead to.
  pub data Reaches (s : Store) : Store → Type 0 where
    start : Reaches s s
    after : (t : Store) (request : WorkflowRequest) → Reaches s t → Reaches s (perform request t)

  perform-IsConsistent :
      (laws : IsClient db) (request : WorkflowRequest) (s : Store)
      → Consistent s
      → Consistent (perform request s)
  unfolding perform
  perform-IsConsistent laws (WorkflowRequest.create_expense env user dto) s inv =
      create-IsConsistent db laws env user dto s inv
  perform-IsConsistent laws (WorkflowRequest.attach_receipt env user id object_key expected) s inv =
      complete_receipt_upload-IsConsistent db laws settings env user id object_key expected s inv
  perform-IsConsistent laws (WorkflowRequest.submit_expense env user id expected) s inv =
      submit-IsConsistent db laws lower env user id expected s inv
  perform-IsConsistent laws (WorkflowRequest.decide_approval env user id dto) s inv =
      decide-IsConsistent db laws env user id dto s inv

  -- From a store with no expense and no approval, every sequence of calls of `create`,
  -- `completeReceiptUpload`, `submit` and `decide`, by any callers and however each of them
  -- ends, leads to consistent tables Expense and Approval: unique keys, each approval in a
  -- status that its expense allows, an open approval for each expense that waits for one.
  pub Reaches-IsConsistent :
      (laws : IsClient db) (s t : Store)
      → s.expenses ≡ []
      → s.approvals ≡ []
      → Reaches s t
      → Consistent t
  Reaches-IsConsistent laws s t no_expenses no_approvals Reaches.start =
      subst₂ IsConsistent (sym no_expenses) (sym no_approvals) empty-IsConsistent
  Reaches-IsConsistent laws s _ no_expenses no_approvals (Reaches.after t request before) =
      perform-IsConsistent laws request t
        (Reaches-IsConsistent laws s t no_expenses no_approvals before)
