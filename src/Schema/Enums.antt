-- ===== src/Schema/Enums.antt =====
-- The enums of apps/api/prisma/schema.prisma, with the equality that the code tests by `===`.
use expenseflow.Common.{ℕ, ◌≡◌, ◌↔◌, Bool, true, Eq, eqb, arith}

pub data Role : Type 0 where
  admin finance manager employee : Role

pub data ExpenseStatus : Type 0 where
  draft submitted pending_manager pending_finance approved rejected : ExpenseStatus

pub data ApprovalStatus : Type 0 where
  pending approved rejected skipped : ApprovalStatus

pub data ApprovalLevel : Type 0 where
  manager finance : ApprovalLevel

pub data PolicyAction : Type 0 where
  require_manager require_finance auto_reject : PolicyAction

pub data IdempotencyStatus : Type 0 where
  pending completed : IdempotencyStatus

abbrev pub role_index : Role → ℕ
role_index Role.admin = 0
role_index Role.finance = 1
role_index Role.manager = 2
role_index Role.employee = 3

abbrev pub expense_status_index : ExpenseStatus → ℕ
expense_status_index ExpenseStatus.draft = 0
expense_status_index ExpenseStatus.submitted = 1
expense_status_index ExpenseStatus.pending_manager = 2
expense_status_index ExpenseStatus.pending_finance = 3
expense_status_index ExpenseStatus.approved = 4
expense_status_index ExpenseStatus.rejected = 5

abbrev pub approval_status_index : ApprovalStatus → ℕ
approval_status_index ApprovalStatus.pending = 0
approval_status_index ApprovalStatus.approved = 1
approval_status_index ApprovalStatus.rejected = 2
approval_status_index ApprovalStatus.skipped = 3

abbrev pub level_index : ApprovalLevel → ℕ
level_index ApprovalLevel.manager = 0
level_index ApprovalLevel.finance = 1

abbrev pub action_index : PolicyAction → ℕ
action_index PolicyAction.require_manager = 0
action_index PolicyAction.require_finance = 1
action_index PolicyAction.auto_reject = 2

abbrev pub role_same : Role → Role → Bool
role_same a b = eqb (role_index a) (role_index b)

abbrev pub expense_status_same : ExpenseStatus → ExpenseStatus → Bool
expense_status_same a b = eqb (expense_status_index a) (expense_status_index b)

abbrev pub approval_status_same : ApprovalStatus → ApprovalStatus → Bool
approval_status_same a b = eqb (approval_status_index a) (approval_status_index b)

abbrev pub level_same : ApprovalLevel → ApprovalLevel → Bool
level_same a b = eqb (level_index a) (level_index b)

abbrev pub action_same : PolicyAction → PolicyAction → Bool
action_same a b = eqb (action_index a) (action_index b)

pub role_same_iff : (a b : Role) → (role_same a b ≡ true) ↔ (a ≡ b)
role_same_iff a b = ground arith

pub expense_status_same_iff : (a b : ExpenseStatus) → (expense_status_same a b ≡ true) ↔ (a ≡ b)
expense_status_same_iff a b = ground arith

pub approval_status_same_iff : (a b : ApprovalStatus) → (approval_status_same a b ≡ true) ↔ (a ≡ b)
approval_status_same_iff a b = ground arith

pub level_same_iff : (a b : ApprovalLevel) → (level_same a b ≡ true) ↔ (a ≡ b)
level_same_iff a b = ground arith

pub action_same_iff : (a b : PolicyAction) → (action_same a b ≡ true) ↔ (a ≡ b)
action_same_iff a b = ground arith

instance abbrev pub role_eq : Eq Role
role_eq = record { same = role_same; same_iff = role_same_iff }

instance abbrev pub expense_status_eq : Eq ExpenseStatus
expense_status_eq = record { same = expense_status_same; same_iff = expense_status_same_iff }

instance abbrev pub approval_status_eq : Eq ApprovalStatus
approval_status_eq = record { same = approval_status_same; same_iff = approval_status_same_iff }

instance abbrev pub level_eq : Eq ApprovalLevel
level_eq = record { same = level_same; same_iff = level_same_iff }

instance abbrev pub action_eq : Eq PolicyAction
action_eq = record { same = action_same; same_iff = action_same_iff }
