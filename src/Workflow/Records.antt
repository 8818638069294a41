-- ===== src/Workflow/Records.antt =====
-- The services of the workflow leave the table IdempotencyRecord to the interceptor.
use expenseflow.Common.{
  ℕ, ◌≡◌, refl, ap, ◌∙◌, Text, Option, Result, ok, err, String, arith, not, ◌==◌, number_eq, some,
}
use expenseflow.Schema.{Expense, ExpenseStatus, Metadata, User, Store, AuditLog}
use expenseflow.Database.{Client, IsClient, Env, Keeps-after, with_tenant, pure, throw_if}
use expenseflow.Audit.{write_log}
use expenseflow.Notifications.{enqueue}
use expenseflow.Policies.{PolicyEvaluation}
use expenseflow.Expenses.{
  AuthUser, CreateExpenseDto, Submission, create, submit, submit_write, prepare_submission,
  finish_submission, notify_submitted, complete_receipt_upload, receipt_write, lift, log_of,
  get_owned_draft_expense,
}
use expenseflow.Expenses.Inversion.{submit_write-Submitted, receipt_write-Runs}
use expenseflow.Approvals.{
  DecideApprovalDto, Pending, find_pending, check_pending, decide_write, finish_decision,
  notify_if_finance, notify_next_finance_approver, decide,
}
use expenseflow.Approvals.Inversion.{decide_write-Decided}
use expenseflow.Workflow.Requests.{prepare_submission-reads}
use expenseflow.Workflow.Deciding.{commit-reads, find_pending-reads, check_pending-reads}
use expenseflow.Workflow.Guards.{submit_write-err}
use expenseflow.Workflow.Stale.{decide_write-err}
use expenseflow.Receipts.{S3Settings, assert_object_belongs_to_expense, to_storage_uri}
use expenseflow.Workflow.Drafts.{receipt_write-err, find_owned_draft-reads}
use expenseflow.Database.{after_read, throw_if-reads}

-- The records are as they were.
abbrev pub SameRecords : Store → Store → Type 0
SameRecords s t = t.idempotency_records ≡ s.idempotency_records

module _ (db : Client) where
  pub write_log-SameRecords :
      (o : Text) (row : AuditLog) (s : Store) → SameRecords s (write_log db o row s).1
  unfolding write_log
  write_log-SameRecords o row s = ground arith

  enqueue-SameRecords :
      (env : Env) (span : Text) (kind : String) (recipient subject message : Text) (s : Store)
      → SameRecords s (enqueue env span kind recipient subject message s).1
  unfolding enqueue
  enqueue-SameRecords env span kind recipient subject message s = refl

  notify_submitted-SameRecords :
      (env : Env) (owner : User) (e : Expense) (st : ExpenseStatus) (m f : Option User) (s : Store)
      → SameRecords s (notify_submitted db env owner e st m f s).1
  unfolding notify_submitted enqueue
  notify_submitted-SameRecords env owner e st m f s = ground arith

  finish_submission-SameRecords :
      (env : Env) (user : AuthUser) (id : Text) (plan : Submission) (updated : Expense) (s : Store)
      → SameRecords s (finish_submission db env user id plan updated s).1
  unfolding finish_submission
  finish_submission-SameRecords env user id plan updated s =
      grind (arith, write_log-SameRecords, notify_submitted-SameRecords)

  finish_decision-SameRecords :
      (env : Env) (user : AuthUser) (dto : DecideApprovalDto) (seen : Pending) (result : Expense)
      (s : Store)
      → SameRecords s (finish_decision db env user dto seen result s).1
  unfolding finish_decision notify_if_finance notify_next_finance_approver
  finish_decision-SameRecords env user dto seen result s =
      grind (arith, write_log-SameRecords, enqueue-SameRecords)

  pub create-SameRecords :
      (env : Env) (user : AuthUser) (dto : CreateExpenseDto) (s : Store)
      → SameRecords s (create db env user dto s).1
  unfolding create
  create-SameRecords env user dto s = grind (arith, write_log-SameRecords)

module _ (db : Client) (laws : IsClient db) where
  submit_write-SameRecords :
      (env : Env) (user : AuthUser) (id : Text) (expected : ℕ) (evaluation : PolicyEvaluation)
      (manager finance : Option User) (s : Store)
      → SameRecords s (submit_write db env user id expected evaluation manager finance s).1
  submit_write-SameRecords env user id expected evaluation manager finance s =
      by_outcome (submit_write db env user id expected evaluation manager finance s) refl
    where
      by_outcome :
          (r : Result Expense × Store)
          → submit_write db env user id expected evaluation manager finance s ≡ r
          → SameRecords s r.1
      by_outcome (ok updated, s') e =
          let done =
            submit_write-Submitted db laws env user id expected evaluation manager finance s s'
              updated e in
          ap (λ y. y.idempotency_records) done.store
      by_outcome (err x, s') e =
          ap (λ y. y.idempotency_records)
            (submit_write-err db laws env user id expected evaluation manager finance s s' x e)

  pub submit-SameRecords :
      (lower : Text → Text) (env : Env) (user : AuthUser) (id : Text) (expected : ℕ) (s : Store)
      → SameRecords s (submit db lower env user id expected s).1
  unfolding submit
  submit-SameRecords lower env user id expected s =
      after_read (SameRecords s) (prepare_submission db lower user id expected s) _ s
        (prepare_submission-reads db lower user id expected s) refl
        λ plan.
          let u =
            submit_write db env user id expected plan.evaluation plan.manager plan.finance s in
          let written =
            submit_write-SameRecords env user id expected plan.evaluation plan.manager plan.finance
              s in
          Keeps-after (SameRecords s) u _ written
            λ updated e. finish_submission-SameRecords db env user id plan updated u.1 ∙ written

  decide_write-SameRecords :
      (env : Env) (user : AuthUser) (id : Text) (dto : DecideApprovalDto) (seen : Pending)
      (s : Store)
      → SameRecords s (decide_write db env user id dto seen s).1
  decide_write-SameRecords env user id dto seen s =
      by_outcome (decide_write db env user id dto seen s) refl
    where
      by_outcome :
          (r : Result Expense × Store)
          → decide_write db env user id dto seen s ≡ r
          → SameRecords s r.1
      by_outcome (ok result, s') e =
          let done = decide_write-Decided db laws env user id dto seen s s' result e in
          ap (λ y. y.idempotency_records) done.rest
      by_outcome (err x, s') e =
          ap (λ y. y.idempotency_records) (decide_write-err db laws env user id dto seen s s' x e)

  pub decide-SameRecords :
      (env : Env) (user : AuthUser) (id : Text) (dto : DecideApprovalDto) (s : Store)
      → SameRecords s (decide db env user id dto s).1
  unfolding decide
  decide-SameRecords env user id dto s =
      after_read (SameRecords s) (with_tenant user.organization_id (find_pending db user id) s) _ s
        (commit-reads (find_pending db user id s) s (find_pending-reads db user id s)) refl
        λ seen.
          after_read (SameRecords s) (check_pending db dto seen s) _ s
            (check_pending-reads db dto seen s) refl
            λ u.
              let written = decide_write db env user id dto seen s in
              let kept = decide_write-SameRecords env user id dto seen s in
              Keeps-after (SameRecords s) written _ kept
                λ result e. finish_decision-SameRecords db env user dto seen result written.1 ∙ kept

  receipt_write-SameRecords :
      (user : AuthUser) (id : Text) (expected : ℕ) (uri : Text) (s : Store)
      → SameRecords s (receipt_write db user id expected uri s).1
  receipt_write-SameRecords user id expected uri s =
      by_outcome (receipt_write db user id expected uri s) refl
    where
      by_outcome :
          (r : Result Expense × Store)
          → receipt_write db user id expected uri s ≡ r
          → SameRecords s r.1
      by_outcome (ok updated, s') e =
          ap (λ y. y.idempotency_records)
            (receipt_write-Runs db laws user id expected uri s s' updated e).0
      by_outcome (err x, s') e =
          ap (λ y. y.idempotency_records) (receipt_write-err db laws user id expected uri s s' x e)

  pub complete_receipt_upload-SameRecords :
      (settings : S3Settings) (env : Env) (user : AuthUser) (id object_key : Text) (expected : ℕ)
      (s : Store)
      → SameRecords s (complete_receipt_upload db settings env user id object_key expected s).1
  unfolding complete_receipt_upload
  complete_receipt_upload-SameRecords settings env user id object_key expected s =
      after_read (SameRecords s) (get_owned_draft_expense db user id s) _ s
        (find_owned_draft-reads db laws user id s) refl
        λ current.
          after_read (SameRecords s) (throw_if (not (current.version == expected)) _ s) _ s
            (throw_if-reads (not (current.version == expected)) _ s) refl
            λ u.
              after_read (SameRecords s)
                (lift (assert_object_belongs_to_expense user.organization_id id object_key) s) _ s
                refl refl
                λ u'.
                  after_read (SameRecords s) (lift (to_storage_uri settings object_key) s) _ s refl
                    refl
                    λ uri.
                      let written = receipt_write db user id expected uri s in
                      let kept = receipt_write-SameRecords user id expected uri s in
                      Keeps-after (SameRecords s) written _ kept λ e q.
                        Keeps-after (SameRecords s) _ (λ u''. pure e)
                          (write_log-SameRecords db user.organization_id
                              (log_of env 0 user id "expense.receipt_attached"
                                (some (Metadata.receipt_attached object_key e.version)))
                              written.1
                            ∙ kept)
                          (λ u'' q'.
                            write_log-SameRecords db user.organization_id
                              (log_of env 0 user id "expense.receipt_attached"
                                (some (Metadata.receipt_attached object_key e.version)))
                              written.1
                            ∙ kept)
