-- ===== src/Expenses/Rows.antt =====
-- The inputs of `ExpensesService`, and the rows and messages that it makes.
use expenseflow.Common.{
  ℕ, ◌+◌, ◌-◌, ◌/◌, Text, String, text, text_is_eq, List, [], ◌∷◌, ◌++◌, Option, none, some, Bool,
  if◌then◌else◌, ok, err, internal, true, false, ◌==◌, ◌&&◌, ◌||◌, not, Result, number_eq, ltb,
  is_empty,
}
use expenseflow.Schema.{
  Role, User, Expense, ExpenseStatus, Metadata, AuditLog, expense_status_eq, role_eq,
}
use expenseflow.Database.{Env, Action}
use expenseflow.Notifications.{to_fixed_2}
use expenseflow.Policies.{PolicyEvaluation, or_default}
use expenseflow.Expenses.Writes.{AuthUser}

pub record CreateExpenseDto : Type 0 where
  pub merchant : Text
  pub amount_cents : ℕ
  pub currency : Option Text
  pub category : Text
  pub description : Option Text
  pub incurred_at : ℕ

-- The query after validation: an absent page is 1 and an absent limit is 20.
pub record ListExpensesQuery : Type 0 where
  pub status : Option Text
  pub category : Option Text
  pub page : ℕ
  pub limit : ℕ

pub record ExpensePage : Type 0 where
  pub items : List Expense
  pub page : ℕ
  pub limit : ℕ
  pub total : ℕ
  pub pages : ℕ

-- A method of another service that touches no row.
abbrev pub lift : {A : Type 0} → Result A → Action A
lift r s = (r, s)

abbrev pub is_employee : AuthUser → Bool
is_employee user = user.role == Role.employee

-- The names of the enum in the database.
unfoldable pub status_named : Text → Option ExpenseStatus
status_named name =
    if name == text "DRAFT"
    then some ExpenseStatus.draft
    else if name == text "SUBMITTED"
    then some ExpenseStatus.submitted
    else if name == text "PENDING_MANAGER"
    then some ExpenseStatus.pending_manager
    else if name == text "PENDING_FINANCE"
    then some ExpenseStatus.pending_finance
    else if name == text "APPROVED"
    then some ExpenseStatus.approved
    else if name == text "REJECTED"
    then some ExpenseStatus.rejected
    else none

-- The status that `list` asks for: none if it is absent or empty. The cast to `ExpenseStatus` checks
-- nothing, and Prisma throws on a name that the enum does not have.
unfoldable pub status_filter : Option Text → Result (Option ExpenseStatus)
status_filter none = ok none
status_filter (some []) = ok none
status_filter (some (c ∷ t)) = elim (status_named (c ∷ t)) [
  | none ↦ err (internal "PrismaClientValidationError")
  | some status ↦ ok (some status)
]

abbrev pub wants_status : Option ExpenseStatus → ExpenseStatus → Bool
wants_status none status = true
wants_status (some wanted) status = status == wanted

-- `mode: 'insensitive'`, by the database's own lower case.
abbrev pub wants_category : (Text → Text) → Option Text → Text → Bool
wants_category lower none category = true
wants_category lower (some wanted) category = is_empty wanted || lower category == lower wanted

-- The `where` of `list`.
unfoldable pub is_listed :
    (Text → Text) → AuthUser → (category : Option Text) → Option ExpenseStatus → Expense → Bool
is_listed lower user category status row =
    row.organization_id == user.organization_id
    && (not (is_employee user) || row.user_id == user.sub)
    && wants_status status row.status
    && wants_category lower category row.category

abbrev pub newest_first : Expense → Expense → Bool
newest_first a b = ltb b.created_at a.created_at

abbrev pub oldest_user_first : User → User → Bool
oldest_user_first a b = ltb a.created_at b.created_at

-- `Math.ceil(total / limit)` for a positive limit.
unfoldable pub ceil_div : ℕ → ℕ → ℕ
ceil_div total limit = (total + (limit - 1)) / limit

unfoldable pub is_manager_of : Text → Text → User → Bool
is_manager_of organization_id manager_id row =
    row.id == manager_id
    && row.organization_id == organization_id
    && (row.role == Role.manager || row.role == Role.admin)

unfoldable pub has_role_in : Text → Role → User → Bool
has_role_in organization_id role row = row.organization_id == organization_id && row.role == role

unfoldable pub new_expense : Env → AuthUser → CreateExpenseDto → Expense
new_expense env user dto = record {
  id = env.drawn 0;
  organization_id = user.organization_id;
  user_id = user.sub;
  merchant = dto.merchant;
  amount_cents = dto.amount_cents;
  currency = or_default dto.currency (text "USD");
  category = dto.category;
  description = dto.description;
  receipt_url = none;
  incurred_at = dto.incurred_at;
  status = ExpenseStatus.draft;
  rejection_reason = none;
  submitted_at = none;
  decided_at = none;
  version = 0;
  created_at = env.now;
}

unfoldable pub log_of : Env → ℕ → AuthUser → Text → String → Option Metadata → AuditLog
log_of env k user id action metadata = record {
  id = env.drawn k;
  organization_id = user.organization_id;
  actor_id = some user.sub;
  entity_type = "Expense";
  entity_id = id;
  action = action;
  metadata = metadata;
  created_at = env.now;
}

unfoldable pub submitted_message : User → Expense → Text
submitted_message owner expense =
    owner.first_name
    ++ (text " submitted "
        ++ (expense.currency
            ++ (b' ' ∷ to_fixed_2 expense.amount_cents ++ (text " at " ++ expense.merchant))))

abbrev pub is_none : {A : Type 0} → Option A → Bool
is_none none = true
is_none (some a) = false

-- A string column that is neither null nor empty.
abbrev pub non_empty : Option Text → Option Text
non_empty none = none
non_empty (some []) = none
non_empty (some (c ∷ t)) = some (c ∷ t)

-- What `submit` reads and decides before its transaction.
pub record Submission : Type 0 where
  pub expense : Expense
  pub owner : User
  pub evaluation : PolicyEvaluation
  pub manager : Option User
  pub finance : Option User
