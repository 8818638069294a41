-- ===== src/Tests/Workflows.antt =====
-- A submission and its decision.
use expenseflow.Common.{
  ◌≡◌, ◌≢◌, refl, text_eq, [], ◌∷◌, none, some, false, err, Error, In, inl, inr, ap, sort_by,
  insert_by, leb_ℤ, sym, ◌∙◌,
}
use expenseflow.Schema.{Approval, ApprovalStatus, Expense, ExpenseStatus, ApprovalLevel, Store}
use expenseflow.Database.{Runs}
use expenseflow.Database.{memory, memory-IsClient}
use expenseflow.Audit.{write_log}
use expenseflow.Notifications.{enqueue, child_of}
use expenseflow.Policies.{evaluate, summarize, policy_matches}
use expenseflow.Expenses.{
  CreateExpenseDto, submit, prepare_submission, find_owned, owner_of, find_manager_if,
  find_manager_approver, is_manager_of, find_finance_if, find_finance_approver, has_role_in,
  submit_write, update_expense, is_own_draft, submitted_row, resolve_submission_status,
  route_manager, route_finance, create_approval, new_approval, approval_clash,
  find_expense_or_throw, finish_submission, log_of, notify_submitted,
}
use expenseflow.Approvals.{
  is_undecided, Decision, DecideApprovalDto, decide, expected_expense_status,
}
use expenseflow.Workflow.Requests.{Consistent, submit-IsConsistent, ended}
use expenseflow.Workflow.Deciding.{decide-IsConsistent}
use expenseflow.Workflow.Guards.{submit-stale, submit-once}
use expenseflow.Receipts.{S3Settings}
use expenseflow.Workflow.Reachable.{WorkflowRequest, perform, Reaches, Reaches-IsConsistent}
use expenseflow.Workflow.Stale.{IsDecided, decide-stale}
use expenseflow.Tests.{store, draft, employee, manager, expense_id, env_at, same_case}

not_waiting : (level : ApprovalLevel) → ExpenseStatus.draft ≢ expected_expense_status level
unfolding expected_expense_status
not_waiting ApprovalLevel.manager e = absurd (cc (e))
not_waiting ApprovalLevel.finance e = absurd (cc (e))

store-Consistent : Consistent store
store-Consistent = record {
  expense_ids = λ d e m n same. elim m [
    | inl p ↦ elim n [ inl q ↦ p ∙ sym q | inr q ↦ absurd q ]
    | inr p ↦ absurd p
  ];
  unique = λ a b m n c. absurd m;
  owned = λ a m. absurd m;
  allowed = λ e a m n same. absurd n;
  awaiting = λ e level m waits. elim m [
    | inl p ↦ absurd (not_waiting level (ap (λ y. y.status) (sym p) ∙ waits))
    | inr p ↦ absurd p
  ];
}

abbrev submitted_store : Store
submitted_store = (submit memory same_case (env_at 50 60) employee expense_id 0 store).1

submit-IsConsistent_example : Consistent submitted_store
submit-IsConsistent_example =
    submit-IsConsistent memory memory-IsClient same_case (env_at 50 60) employee expense_id 0 store
      store-Consistent

abbrev approve : DecideApprovalDto
approve = record { decision = Decision.approve; comment = none; expected_version = 0 }

submitted-Consistent : Consistent submitted_store
submitted-Consistent =
    submit-IsConsistent memory memory-IsClient same_case (env_at 50 60) employee expense_id 0 store
      store-Consistent

decide-IsConsistent_example :
    Consistent (decide memory (env_at 51 61) manager (60 ∷ 0 ∷ []) approve submitted_store).1
decide-IsConsistent_example =
    decide-IsConsistent memory memory-IsClient (env_at 51 61) manager (60 ∷ 0 ∷ []) approve
      submitted_store submitted-Consistent

abbrev submitted : Expense
submitted = record draft {
  status = ExpenseStatus.pending_manager;
  submitted_at = some 50;
  version = 1;
}

submits :
    Runs
      (submit memory same_case (env_at 50 60) employee expense_id 0)
      store
      submitted
      submitted_store
unfolding submit prepare_submission find_owned owner_of evaluate summarize policy_matches
    find_manager_if find_manager_approver is_manager_of find_finance_if find_finance_approver
    has_role_in submit_write update_expense is_own_draft submitted_row resolve_submission_status
    route_manager route_finance create_approval new_approval approval_clash find_expense_or_throw
    finish_submission write_log log_of notify_submitted enqueue text_eq sort_by insert_by child_of
    leb_ℤ
submits = ended (submit memory same_case (env_at 50 60) employee expense_id 0 store) submitted refl

submit-once_example :
    (e : Error) × (submit memory same_case (env_at 52 62) employee expense_id 0 submitted_store
      ≡ (err e, submitted_store))
submit-once_example =
    submit-once memory memory-IsClient same_case (env_at 50 60) (env_at 52 62) employee expense_id 0
      store submitted_store submitted submits

submit-stale_example :
    (e : Error) × (submit memory same_case (env_at 50 60) employee expense_id 7 store
      ≡ (err e, store))
unfolding is_own_draft text_eq
submit-stale_example =
    submit-stale memory memory-IsClient same_case (env_at 50 60) employee expense_id 7 store
      no_version_7
  where
    no_version_7 :
        (e : Expense) → In e store.expenses → is_own_draft employee expense_id 7 e ≡ false
    no_version_7 e (inl p) = ap (is_own_draft employee expense_id 7) p
    no_version_7 e (inr p) = absurd p

-- The same history from an empty workflow: a draft is made, submitted and approved.
abbrev dto : CreateExpenseDto
dto = record {
  merchant = 77 ∷ [];
  amount_cents = 12050;
  currency = none;
  category = 3 ∷ [];
  description = none;
  incurred_at = 5;
}

abbrev settings : S3Settings
settings = record {
  bucket = none;
  region = none;
  access_key_id = none;
  secret_access_key = none;
  session_token = none;
}

abbrev made : WorkflowRequest
made = WorkflowRequest.create_expense (env_at 49 59) employee dto

abbrev sent : WorkflowRequest
sent = WorkflowRequest.submit_expense (env_at 50 60) employee (59 ∷ 0 ∷ []) 0

abbrev decided : WorkflowRequest
decided = WorkflowRequest.decide_approval (env_at 51 61) manager (60 ∷ 0 ∷ []) approve

abbrev empty_store : Store
empty_store = record store { expenses = [] }

abbrev step : WorkflowRequest → Store → Store
step request s = perform memory same_case settings request s

history :
    Reaches memory same_case settings empty_store (step decided (step sent (step made empty_store)))
history =
    Reaches.after _ decided (Reaches.after _ sent (Reaches.after empty_store made Reaches.start))

Reaches-IsConsistent_example : Consistent (step decided (step sent (step made empty_store)))
Reaches-IsConsistent_example =
    Reaches-IsConsistent memory same_case settings memory-IsClient empty_store
      (step decided (step sent (step made empty_store))) refl refl history

-- An approval that the manager has seen at an earlier version.
abbrev waiting : Approval
waiting = record {
  id = 60 ∷ 0 ∷ [];
  expense_id = expense_id;
  approver_id = manager.sub;
  level = ApprovalLevel.manager;
  status = ApprovalStatus.pending;
  comment = none;
  decided_at = none;
  version = 3;
  created_at = 50;
}

abbrev waiting_store : Store
waiting_store = record store { expenses = submitted ∷ []; approvals = waiting ∷ [] }

decide-stale_example :
    (x : Error) × (decide memory (env_at 51 61) manager (60 ∷ 0 ∷ []) approve waiting_store
      ≡ (err x, waiting_store))
unfolding is_undecided text_eq
decide-stale_example =
    decide-stale memory memory-IsClient (env_at 51 61) manager (60 ∷ 0 ∷ []) approve waiting_store
      seen_before
  where
    seen_before : IsDecided manager (60 ∷ 0 ∷ []) 0 waiting_store
    seen_before a (inl p) = ap (is_undecided manager (60 ∷ 0 ∷ []) 0) p
    seen_before a (inr p) = absurd p
