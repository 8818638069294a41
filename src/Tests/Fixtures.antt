-- ===== src/Tests/Fixtures.antt =====
-- An organization with an employee, a manager, finance, two policies and a draft. Texts are short
-- lists of code units.
use expenseflow.Common.{ℕ, pos, Text, [], ◌∷◌, Option, none, some, true}
use expenseflow.Schema.{Role, ExpenseStatus, PolicyAction, User, Session, Expense, Policy, Store}
use expenseflow.Database.{Env}
use expenseflow.Expenses.{AuthUser}

abbrev pub org : Text
org = 1 ∷ []

abbrev pub other_org : Text
other_org = 2 ∷ []

abbrev pub expense_id : Text
expense_id = 9 ∷ []

abbrev pub same_case : Text → Text
same_case t = t

abbrev user_row : Text → Role → Option Text → User
user_row id role manager = record {
  id = id;
  email = id;
  password_hash = id;
  first_name = id;
  last_name = id;
  role = role;
  department = none;
  manager_id = manager;
  organization_id = org;
  created_at = 0;
}

abbrev pub manager_id : Text
manager_id = 11 ∷ []

abbrev pub employee_row : User
employee_row = user_row (10 ∷ []) Role.employee (some manager_id)

abbrev pub employee : AuthUser
employee = record { sub = 10 ∷ []; email = 10 ∷ []; organization_id = org; role = Role.employee }

abbrev pub manager : AuthUser
manager = record {
  sub = manager_id;
  email = manager_id;
  organization_id = org;
  role = Role.manager;
}

abbrev pub draft : Expense
draft = record {
  id = expense_id;
  organization_id = org;
  user_id = 10 ∷ [];
  merchant = 77 ∷ [];
  amount_cents = 12050;
  currency = 85 ∷ [];
  category = 3 ∷ [];
  description = none;
  receipt_url = none;
  incurred_at = 5;
  status = ExpenseStatus.draft;
  rejection_reason = none;
  submitted_at = none;
  decided_at = none;
  version = 0;
  created_at = 6;
}

abbrev pub policy_row : Text → PolicyAction → Option ℕ → Policy
policy_row id action least = record {
  id = id;
  organization_id = org;
  name = id;
  category = none;
  min_amount_cents = least;
  max_amount_cents = none;
  action = action;
  priority = pos 100;
  active = true;
  created_at = 0;
}

abbrev pub session : Session
session = record {
  id = 30 ∷ [];
  user_id = 10 ∷ [];
  token_hash = 31 ∷ [];
  expires_at = 1000;
  revoked_at = none;
  last_used_at = none;
}

abbrev pub store : Store
store = record {
  organizations = [];
  users =
      employee_row
      ∷ user_row manager_id Role.manager none
      ∷ user_row (12 ∷ []) Role.finance none
      ∷ [];
  sessions = session ∷ [];
  idempotency_records = [];
  expenses = draft ∷ [];
  approvals = [];
  policies =
      policy_row (20 ∷ []) PolicyAction.require_manager none
      ∷ policy_row (21 ∷ []) PolicyAction.require_finance (some 10000)
      ∷ [];
  audit_logs = [];
  jobs = [];
}

-- The request at a time that draws ids from a number on.
abbrev pub env_at : ℕ → ℕ → Env
env_at now from = record { now = now; drawn = λ k. from ∷ k ∷ []; trace = none }
