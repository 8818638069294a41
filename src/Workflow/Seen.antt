-- ===== src/Workflow/Seen.antt =====
-- What a decision of approvals.service.ts was read to be about, and the tests of the rows that it changes.
use expenseflow.Common.{◌≡◌, ◌≢◌, ℕ, Text, text_eq_iff, List, none, some, true, In, arith}
use expenseflow.Schema.{Expense, ExpenseStatus, Approval, ApprovalLevel, ApprovalStatus}
use expenseflow.Expenses.{AuthUser}
use expenseflow.Approvals.{
  Pending, is_undecided, is_skipped, is_as_seen, expected_expense_status, find_finance,
}

-- What was read is still true of the rows, as far as the decision needs it: the approval belongs
-- where it did, the finance approval belongs to the same expense, and none has been added unless
-- the expense has changed too.
pub record IsSeen (id : Text) (seen : Pending) (es : List Expense) (rows : List Approval)
    : Type 0 where
  pub approval_stays :
      (a : Approval)
      → In a rows
      → a.id ≡ id
      → (a.expense_id ≡ seen.approval.expense_id) × (a.level ≡ seen.approval.level)
  pub finance_stays :
      (f : Approval)
      → find_finance seen.approvals ≡ some f
      → (a : Approval) → In a rows
      → a.id ≡ f.id
      → (a.expense_id ≡ seen.approval.expense_id) × (a.level ≡ ApprovalLevel.finance)
  pub none_added :
      find_finance seen.approvals ≡ none
      → (e : Expense) → In e es
      → is_as_seen seen.approval.expense_id
          (expected_expense_status seen.approval.level)
          seen.expense.version
          e
        ≡ true
      → (a : Approval) → In a rows
      → a.expense_id ≡ seen.approval.expense_id
      → a.level ≢ ApprovalLevel.finance

pub is_undecided-true :
    (user : AuthUser) (id : Text) (expected : ℕ) (a : Approval)
    → is_undecided user id expected a ≡ true
    → (a.id ≡ id) × (a.status ≡ ApprovalStatus.pending)
unfolding is_undecided
is_undecided-true user id expected a h = ground (arith, text_eq_iff a.id id)

pub is_skipped-true :
    (f a : Approval) → is_skipped f a ≡ true → (a.id ≡ f.id) × (a.status ≡ ApprovalStatus.skipped)
unfolding is_skipped
is_skipped-true f a h = ground (arith, text_eq_iff a.id f.id)

pub is_as_seen-true :
    (id : Text) (st : ExpenseStatus) (v : ℕ) (e : Expense)
    → is_as_seen id st v e ≡ true
    → (e.id ≡ id) × (e.status ≡ st) × (e.version ≡ v)
unfolding is_as_seen
is_as_seen-true id st v e h = ground (arith, text_eq_iff e.id id)

pub rejected_ends : (level : ApprovalLevel) → ExpenseStatus.rejected ≢ expected_expense_status level
unfolding expected_expense_status
rejected_ends level = ground arith

pub approved_ends : (level : ApprovalLevel) → ExpenseStatus.approved ≢ expected_expense_status level
unfolding expected_expense_status
approved_ends level = ground arith
