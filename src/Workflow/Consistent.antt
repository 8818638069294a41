-- ===== src/Workflow/Consistent.antt =====
-- The invariant of the tables Expense and Approval.
use expenseflow.Common.{◌≡◌, ◌⊎◌, List, true, In}
use expenseflow.Schema.{Expense, ExpenseStatus, Approval, ApprovalLevel, ApprovalStatus}
use expenseflow.Expenses.{approval_clash}
use expenseflow.Approvals.{expected_expense_status}

-- The approvals that an expense may have: while it is with the manager, a finance approval sleeps;
-- with finance, the manager has approved; a draft has none, and no expense is ever `SUBMITTED`.
abbrev pub Allowed : ExpenseStatus → ApprovalLevel → ApprovalStatus → Type 0
Allowed ExpenseStatus.draft level status = ⊥
Allowed ExpenseStatus.submitted level status = ⊥
Allowed ExpenseStatus.pending_manager ApprovalLevel.manager status = status ≡ ApprovalStatus.pending
Allowed ExpenseStatus.pending_manager ApprovalLevel.finance status = status ≡ ApprovalStatus.skipped
Allowed ExpenseStatus.pending_finance ApprovalLevel.manager status =
    status ≡ ApprovalStatus.approved
Allowed ExpenseStatus.pending_finance ApprovalLevel.finance status = status ≡ ApprovalStatus.pending
Allowed ExpenseStatus.approved level status = status ≡ ApprovalStatus.approved
Allowed ExpenseStatus.rejected ApprovalLevel.manager status =
    (status ≡ ApprovalStatus.rejected) ⊎ (status ≡ ApprovalStatus.approved)
Allowed ExpenseStatus.rejected ApprovalLevel.finance status =
    (status ≡ ApprovalStatus.rejected) ⊎ (status ≡ ApprovalStatus.skipped)

-- No two approvals share an id, or an expense and a level.
abbrev pub Unique : List Approval → Type 0
Unique rows = (a b : Approval) → In a rows → In b rows → approval_clash a b ≡ true → a ≡ b

-- An approval that is open for an expense at a level.
abbrev pub Open : List Approval → Expense → ApprovalLevel → Type 0
Open approvals e level =
    (a : Approval) × In a approvals
    × (a.expense_id ≡ e.id)
    × (a.level ≡ level)
    × (a.status ≡ ApprovalStatus.pending)

pub record IsConsistent (expenses : List Expense) (approvals : List Approval) : Type 0 where
  -- the primary key of Expense, and the keys of Approval
  pub expense_ids : (d e : Expense) → In d expenses → In e expenses → d.id ≡ e.id → d ≡ e
  pub unique : Unique approvals
  -- the foreign key of Approval
  pub owned :
      (a : Approval) → In a approvals → (e : Expense) × In e expenses × (e.id ≡ a.expense_id)
  pub allowed :
      (e : Expense) (a : Approval)
      → In e expenses
      → In a approvals
      → a.expense_id ≡ e.id
      → Allowed e.status a.level a.status
  -- an expense that waits for a decision has an approval on which it can be made
  pub awaiting :
      (e : Expense) (level : ApprovalLevel)
      → In e expenses
      → e.status ≡ expected_expense_status level
      → Open approvals e level
