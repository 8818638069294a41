-- ===== src/Approvals/Rows.antt =====
-- The inputs of `ApprovalsService`, and the tests and changes of rows that it hands to the database.
use expenseflow.Common.{
  ℕ, ◌+◌, Text, String, text, text_is_eq, number_eq, List, [], ◌∷◌, ◌++◌, Option, none, some, Bool,
  true, false, ◌==◌, ◌&&◌, Error, conflict, if◌then◌else◌, any, find, ltb,
}
use expenseflow.Schema.{
  User, Expense, ExpenseStatus, Approval, ApprovalLevel, ApprovalStatus, expense_status_eq,
  approval_status_eq, level_eq,
}
use expenseflow.Database.{Env}
use expenseflow.Notifications.{to_fixed_2, status_name, level_name_lower}
use expenseflow.Expenses.{AuthUser, is_none}

pub data Decision : Type 0 where
  approve reject : Decision

pub record DecideApprovalDto : Type 0 where
  pub decision : Decision
  pub expected_version : ℕ
  pub comment : Option Text

-- What `decide` reads before its transaction: the approval, its expense, the expense's owner, and
-- all approvals of the expense.
pub record Pending : Type 0 where
  pub approval : Approval
  pub expense : Expense
  pub owner : User
  pub approvals : List Approval

abbrev pub stale_approval_conflict : Error
stale_approval_conflict =
    conflict "This approval changed after you loaded it. Refresh the page and try again."

abbrev pub is_approve : Decision → Bool
is_approve Decision.approve = true
is_approve Decision.reject = false

abbrev pub oldest_first : Approval → Approval → Bool
oldest_first a b = ltb a.created_at b.created_at

-- `expense: { organizationId }` on an approval.
unfoldable pub in_organization : Text → List Expense → Approval → Bool
in_organization organization_id expenses row =
    any (λ e. e.id == row.expense_id && e.organization_id == organization_id) expenses

unfoldable pub expected_expense_status : ApprovalLevel → ExpenseStatus
expected_expense_status ApprovalLevel.manager = ExpenseStatus.pending_manager
expected_expense_status ApprovalLevel.finance = ExpenseStatus.pending_finance

-- The `where` and the `data` of the update of the approval.
unfoldable pub is_undecided : AuthUser → Text → ℕ → Approval → Bool
is_undecided user id expected row =
    row.id == id
    && row.approver_id == user.sub
    && row.status == ApprovalStatus.pending
    && row.version == expected

unfoldable pub decided_approval : Env → DecideApprovalDto → Approval → Approval
decided_approval env dto row = record row {
  status = if is_approve dto.decision then ApprovalStatus.approved else ApprovalStatus.rejected;
  comment = if is_none dto.comment then row.comment else dto.comment;
  decided_at = some env.now;
  version = row.version + 1;
}

-- The `where` and the `data` that wake the finance approval.
unfoldable pub is_skipped : Approval → Approval → Bool
is_skipped seen row =
    row.id == seen.id && row.status == ApprovalStatus.skipped && row.version == seen.version

unfoldable pub woken_approval : Approval → Approval
woken_approval row = record row { status = ApprovalStatus.pending; version = row.version + 1 }

-- The `where` and the `data` of the update of the expense.
unfoldable pub is_as_seen : Text → ExpenseStatus → ℕ → Expense → Bool
is_as_seen id status version row = row.id == id && row.status == status && row.version == version

-- What the branches of `decide` assign: `decidedAt` is set unless finance comes next.
pub record Outcome : Type 0 where
  pub next_status : ExpenseStatus
  pub rejection_reason : Option Text
  pub sets_decided_at : Bool

unfoldable pub decided_expense : Env → Outcome → Expense → Expense
decided_expense env outcome row = record row {
  status = outcome.next_status;
  version = row.version + 1;
  rejection_reason =
      if is_none outcome.rejection_reason then row.rejection_reason else outcome.rejection_reason;
  decided_at = if outcome.sets_decided_at then some env.now else row.decided_at;
}

-- `dto.comment || ...`
unfoldable pub reason_of : ApprovalLevel → Option Text → Text
reason_of level none = text "Rejected by " ++ (level_name_lower level ++ text " approver")
reason_of level (some []) = text "Rejected by " ++ (level_name_lower level ++ text " approver")
reason_of level (some (c ∷ t)) = c ∷ t

abbrev pub rejected_outcome : ApprovalLevel → Option Text → Outcome
rejected_outcome level comment = record {
  next_status = ExpenseStatus.rejected;
  rejection_reason = some (reason_of level comment);
  sets_decided_at = true;
}

abbrev pub approved_outcome : Outcome
approved_outcome = record {
  next_status = ExpenseStatus.approved;
  rejection_reason = none;
  sets_decided_at = true;
}

abbrev pub finance_outcome : Outcome
finance_outcome = record {
  next_status = ExpenseStatus.pending_finance;
  rejection_reason = none;
  sets_decided_at = false;
}

abbrev pub find_finance : List Approval → Option Approval
find_finance approvals = find (λ candidate. candidate.level == ApprovalLevel.finance) approvals

unfoldable pub decision_action : Decision → String
decision_action Decision.approve = "approval.approved"
decision_action Decision.reject = "approval.rejected"

unfoldable pub decision_message : Expense → Expense → Text
decision_message seen result =
    text "Your "
    ++ (seen.currency
        ++ (b' ' ∷ to_fixed_2 seen.amount_cents
            ++ (text " expense at "
                ++ (seen.merchant
                    ++ (text " is now " ++ (status_name result.status ++ text "."))))))
