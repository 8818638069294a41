-- ===== src/Endpoints.antt =====
-- The routes that write expenses and approvals, apps/api/src/expenses/expenses.controller.ts and
-- apps/api/src/approvals/approvals.controller.ts: the permissions guard, the idempotency interceptor
-- and the service, one around the other. `JwtAuthGuard` hands them the caller.
pub mod Routes
use expenseflow.Common.{ℕ, Text, [], ◌∷◌, some, Bool, true, if◌then◌else◌, ok, Result, forbidden}
use expenseflow.Schema.{Expense, Store}
use expenseflow.Database.{Client, Env, Action, after, pure, throw}
use expenseflow.Permissions.{Permission, permissions_can_activate}
use expenseflow.Idempotency.{Json, Hashing, Request, Response, intercept}
use expenseflow.Receipts.{S3Settings}
use expenseflow.Expenses.{AuthUser, create, complete_receipt_upload, submit}
use expenseflow.Approvals.{decide}
use expenseflow.Workflow.Reachable.{WorkflowRequest}

-- `@RequirePermissions` of each route.
unfoldable pub required_of : WorkflowRequest → Permission
required_of (WorkflowRequest.create_expense env user dto) = Permission.expense_create
required_of (WorkflowRequest.attach_receipt env user id object_key expected) =
    Permission.receipt_manage
required_of (WorkflowRequest.submit_expense env user id expected) = Permission.expense_submit
required_of (WorkflowRequest.decide_approval env user id dto) = Permission.approval_review

-- `@CurrentUser()`
unfoldable pub caller_of : WorkflowRequest → AuthUser
caller_of (WorkflowRequest.create_expense env user dto) = user
caller_of (WorkflowRequest.attach_receipt env user id object_key expected) = user
caller_of (WorkflowRequest.submit_expense env user id expected) = user
caller_of (WorkflowRequest.decide_approval env user id dto) = user

unfoldable pub is_granted : WorkflowRequest → Bool
is_granted wanted =
    permissions_can_activate (required_of wanted ∷ []) (some (caller_of wanted).role)

-- The request as the interceptor sees it: with the user that the guard has put there.
abbrev pub as_caller : {Body : Type 0} → AuthUser → Request Body → Request Body
as_caller user request = record request { user = some (user.organization_id, user.sub) }

module _ (db : Client) (lower : Text → Text) (settings : S3Settings) where
  -- The method of the service that the route calls.
  unfoldable pub handle : WorkflowRequest → Action Expense
  handle (WorkflowRequest.create_expense env user dto) = create db env user dto
  handle (WorkflowRequest.attach_receipt env user id object_key expected) =
      complete_receipt_upload db settings env user id object_key expected
  handle (WorkflowRequest.submit_expense env user id expected) =
      submit db lower env user id expected
  handle (WorkflowRequest.decide_approval env user id dto) = decide db env user id dto

  module _ {Body : Type 0} (json : Json Body) (hashing : Hashing Body)
      (render : Expense → Body) where
    -- A `@Post` answers with status 201.
    abbrev pub respond : WorkflowRequest → Action (Response Body)
    respond wanted s = after (handle wanted s) (λ expense. pure (201, some (render expense)))

    unfoldable pub serve : ℕ → Env → Request Body → WorkflowRequest → Action (Response Body)
    serve fuel env request wanted =
        if is_granted wanted
        then intercept db json hashing true fuel env (as_caller (caller_of wanted) request)
            (respond wanted)
        else throw (forbidden "Forbidden resource")
