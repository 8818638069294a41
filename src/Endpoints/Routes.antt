-- ===== src/Endpoints/Routes.antt =====
-- The routes of expenses.controller.ts and approvals.controller.ts as a whole.
use expenseflow.Common.{
  ℕ, suc, ◌+◌, ◌<◌, ◌≡◌, refl, ap, Text, true, false, Bool-cases, ◌⊎◌, inl, inr, some, [], ◌∷◌, ok,
  err, forbidden,
}
use expenseflow.Schema.{Expense, Role, Store}
use expenseflow.Database.{Client, IsClient, Env, Runs}
use expenseflow.Permissions.{
  Permission, permissions_can_activate, has_permission, role_permissions, permission_eq,
}
use expenseflow.Idempotency.{Json, Hashing, Request, Claim, ClaimInput, claim, claim_input, day_ms}
use expenseflow.Idempotency.Requests.{IsJson}
use expenseflow.Idempotency.Once.{intercept-once_kept}
use expenseflow.Receipts.{S3Settings}
use expenseflow.Workflow.Reachable.{WorkflowRequest}
use expenseflow.Workflow.Records.{
  SameRecords, create-SameRecords, complete_receipt_upload-SameRecords, submit-SameRecords,
  decide-SameRecords,
}
use expenseflow.Expenses.{AuthUser}
use expenseflow.Approvals.{DecideApprovalDto}
use expenseflow.Endpoints.{required_of, caller_of, is_granted, as_caller, handle, respond, serve}

granted-separated :
    (env env' : Env) (user : AuthUser) (id id' : Text) (expected : ℕ) (dto : DecideApprovalDto)
    → is_granted (WorkflowRequest.submit_expense env user id expected) ≡ true
    → is_granted (WorkflowRequest.decide_approval env' user id' dto) ≡ false
unfolding is_granted permissions_can_activate has_permission role_permissions required_of caller_of
granted-separated env env' user id id' expected dto h = by_role user.role h
  where
    by_role :
        (role : Role)
        → permissions_can_activate (Permission.expense_submit ∷ []) (some role) ≡ true
        → permissions_can_activate (Permission.approval_review ∷ []) (some role) ≡ false
    by_role Role.admin h = absurd (cc (h))
    by_role Role.finance h = absurd (cc (h))
    by_role Role.manager h = absurd (cc (h))
    by_role Role.employee h = refl

module _ (db : Client) (laws : IsClient db) (lower : Text → Text) (settings : S3Settings) where
  handle-SameRecords :
      (wanted : WorkflowRequest) (s : Store) → SameRecords s (handle db lower settings wanted s).1
  unfolding handle
  handle-SameRecords (WorkflowRequest.create_expense env user dto) s =
      create-SameRecords db env user dto s
  handle-SameRecords (WorkflowRequest.attach_receipt env user id object_key expected) s =
      complete_receipt_upload-SameRecords db laws settings env user id object_key expected s
  handle-SameRecords (WorkflowRequest.submit_expense env user id expected) s =
      submit-SameRecords db laws lower env user id expected s
  handle-SameRecords (WorkflowRequest.decide_approval env user id dto) s =
      decide-SameRecords db laws env user id dto s

  module _ {Body : Type 0} (json : Json Body) (hashing : Hashing Body)
      (render : Expense → Body) where
    -- When a granted request to one of the four writing routes has claimed its key and its
    -- service method has ended well, the route answers 201 with the expense and leaves the
    -- tables as the method left them but for the idempotency records; on that store the same
    -- HTTP request of the same caller within a day is answered with the same status and body,
    -- whatever it asks of the service, and changes nothing; JSON is assumed to round-trip.
    pub serve-once :
        (fuel fuel' : ℕ) (env env' : Env) (request : Request Body)
        (wanted repeated : WorkflowRequest) (input : ClaimInput) (id : Text) (expense : Expense)
        (s s1 s2 : Store)
        → IsJson json
        → is_granted wanted ≡ true
        → is_granted repeated ≡ true
        → caller_of repeated ≡ caller_of wanted
        → claim_input hashing (as_caller (caller_of wanted) request) ≡ ok input
        → Runs (claim db json fuel 0 env input) s (Claim.claimed id) s1
        → Runs (handle db lower settings wanted) s1 expense s2
        → env'.now < env.now + day_ms
        → (s' : Store) × (s' ≡ record s2 { idempotency_records = s'.idempotency_records })
          × Runs
              (serve db lower settings json hashing render fuel env request wanted)
              s
              (201, some (render expense))
              s'
          × Runs
              (serve db lower settings json hashing render (suc fuel') env' request repeated)
              s'
              (201, some (render expense))
              s'
    unfolding serve
    serve-once fuel fuel' env env' request wanted repeated input id expense s s1 s2 j may may' same
          valid claims ran soon =
        let responds : Runs (respond db lower settings json hashing render wanted) s1
            (201, some (render expense)) s2 =
          rw ran refl in
        let kept : SameRecords s1 s2 = rw⁻¹ (ap (λ r. r.1) ran) (handle-SameRecords wanted s1) in
        rw (may, may', same)
          (intercept-once_kept db laws json hashing fuel fuel' env env'
            (as_caller (caller_of wanted) request)
            (respond db lower settings json hashing render wanted)
            (respond db lower settings json hashing render repeated) input id 201
            (some (render expense)) s s1 s2 j valid claims responds kept soon)

    serve-refused :
        (fuel : ℕ) (env : Env) (request : Request Body) (wanted : WorkflowRequest) (s : Store)
        → is_granted wanted ≡ false
        → serve db lower settings json hashing render fuel env request wanted s
          ≡ (err (forbidden "Forbidden resource"), s)
    unfolding serve
    serve-refused fuel env request wanted s refused = rw refused refl

    -- Of the route that submits an expense and the one that decides an approval, at least one
    -- answers any given user with 403 and leaves the store as it is.
    pub serve-separated :
        (fuel : ℕ) (http_env : Env) (request : Request Body) (env env' : Env) (user : AuthUser)
        (id id' : Text) (expected : ℕ) (dto : DecideApprovalDto) (s : Store)
        → (serve db lower settings json hashing render fuel http_env request
              (WorkflowRequest.submit_expense env user id expected)
              s
            ≡ (err (forbidden "Forbidden resource"), s))
          ⊎ (serve db lower settings json hashing render fuel http_env request
                (WorkflowRequest.decide_approval env' user id' dto)
                s
              ≡ (err (forbidden "Forbidden resource"), s))
    serve-separated fuel http_env request env env' user id id' expected dto s =
        elim (Bool-cases (is_granted (WorkflowRequest.submit_expense env user id expected))) [
          | inr refused ↦ inl (
              serve-refused fuel http_env request
                (WorkflowRequest.submit_expense env user id expected) s refused)
          | inl granted ↦ inr (
              serve-refused fuel http_env request
                (WorkflowRequest.decide_approval env' user id' dto) s
                (granted-separated env env' user id id' expected dto granted))
        ]
