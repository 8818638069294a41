-- ===== src/Workflow/Lifecycle.antt =====
-- The life of an expense: the states of ExpenseStatus and the moves between them that
-- expenses.service.ts and approvals.service.ts are to make.
use expenseflow.Common.{
  ℕ, ◌+◌, ◌≡◌, refl, ap, Text, List, [], ◌∷◌, ◌++◌, Option, none, some, Bool, true, false, arith,
  inl, inr, any, count, map_where, Bool-cases, text_is_eq, number_eq,
}
use expenseflow.Schema.{Expense, ExpenseStatus, Approval, ApprovalLevel, expense_status_eq}
use expenseflow.Database.{Env}
use expenseflow.Policies.{PolicyEvaluation}
use expenseflow.Expenses.{
  AuthUser, same_expense_id, is_own_draft, submitted_row, receipt_row, resolve_submission_status,
}
use expenseflow.Approvals.{Decision, Outcome, is_as_seen, decided_expense, expected_expense_status}
use expenseflow.Approvals.Inversion.{Routed}
use expenseflow.Workflow.Facts.{is_own_draft-true}

-- A draft may be edited or sent on its way, an approver passes it on or decides, and a decided
-- expense stays as it is.
unfoldable pub may_move : ExpenseStatus → ExpenseStatus → Bool
may_move ExpenseStatus.draft ExpenseStatus.submitted = false
may_move ExpenseStatus.draft to = true
may_move ExpenseStatus.pending_manager ExpenseStatus.pending_finance = true
may_move ExpenseStatus.pending_manager ExpenseStatus.approved = true
may_move ExpenseStatus.pending_manager ExpenseStatus.rejected = true
may_move ExpenseStatus.pending_finance ExpenseStatus.approved = true
may_move ExpenseStatus.pending_finance ExpenseStatus.rejected = true
may_move from to = false

-- One move: the version goes up by one, and what the expense claims is as it was.
pub record IsMoved (e e' : Expense) : Type 0 where
  pub status : may_move e.status e'.status ≡ true
  pub version : e'.version ≡ e.version + 1
  pub kept : e' ≡ record e {
    status = e'.status;
    version = e'.version;
    receipt_url = e'.receipt_url;
    rejection_reason = e'.rejection_reason;
    submitted_at = e'.submitted_at;
    decided_at = e'.decided_at;
  }

-- A step of the whole table: nothing, one new draft, or one move of one expense.
pub data Step (es es' : List Expense) : Type 0 where
  stay : es' ≡ es → Step es es'
  add :
      (e : Expense)
      → any (same_expense_id e) es ≡ false
      → e.status ≡ ExpenseStatus.draft
      → e.version ≡ 0
      → es' ≡ es ++ e ∷ []
      → Step es es'
  move :
      (before : List Expense) (e e' : Expense) (behind : List Expense)
      → es ≡ before ++ e ∷ behind
      → es' ≡ before ++ e' ∷ behind
      → IsMoved e e'
      → Step es es'

module _ (p : Expense → Bool) (f : Expense → Expense) where
  map_where-none : (es : List Expense) → count p es ≡ 0 → map_where p f es ≡ es
  map_where-none [] h = refl
  map_where-none (e ∷ es) h = ground (arith, map_where-none es)

  -- An update of exactly one row is a move if it changes that row as a move does.
  pub map_where-Step :
      (es : List Expense)
      → ((e : Expense) → p e ≡ true → IsMoved e (f e))
      → count p es ≡ 1
      → Step es (map_where p f es)
  map_where-Step [] moves one = absurd (omega arith)
  map_where-Step (e ∷ es) moves one = elim (Bool-cases (p e)) [
    | inl h ↦
        let rest : map_where p f es ≡ es = map_where-none es (ground arith) in
        Step.move [] e (f e) es refl (rw (h, rest) refl) (moves e h)
    | inr h ↦ rw h (behind (map_where-Step es moves (ground arith)))
  ]
    where
      behind : Step es (map_where p f es) → Step (e ∷ es) (e ∷ map_where p f es)
      behind (Step.stay q) = Step.stay (ap (λ y. e ∷ y) q)
      behind (Step.add new free q v k) = absurd (too_long es new k)
        where
          too_long : (es : List Expense) (new : Expense) → map_where p f es ≡ es ++ new ∷ [] → ⊥
          too_long [] new k = absurd (cc (k))
          too_long (x ∷ es) new k = too_long es new (ap tail k)
            where
              tail : List Expense → List Expense
              tail [] = []
              tail (x ∷ xs) = xs
      behind (Step.move before d d' rest q k m) =
          Step.move (e ∷ before) d d' rest (ap (λ y. e ∷ y) q) (ap (λ y. e ∷ y) k) m

pub submitted_row-IsMoved :
    (env : Env) (user : AuthUser) (id : Text) (expected : ℕ) (evaluation : PolicyEvaluation)
    (e : Expense)
    → is_own_draft user id expected e ≡ true
    → IsMoved e (submitted_row env evaluation (resolve_submission_status evaluation) e)
unfolding submitted_row resolve_submission_status may_move
submitted_row-IsMoved env user id expected evaluation e own =
    let (_, is_draft, _, _, _) = is_own_draft-true user id expected e own in
    record { status = ground arith; version = refl; kept = refl }

pub receipt_row-IsMoved :
    (user : AuthUser) (id : Text) (expected : ℕ) (uri : Text) (e : Expense)
    → is_own_draft user id expected e ≡ true
    → IsMoved e (receipt_row uri e)
unfolding receipt_row may_move
receipt_row-IsMoved user id expected uri e own =
    let (_, is_draft, _, _, _) = is_own_draft-true user id expected e own in
    record { status = ground arith; version = refl; kept = refl }

-- Whichever way a decision goes, it is a way that the level of the approval allows.
pub Routed-may_move :
    (decision : Decision) (comment : Option Text) (level : ApprovalLevel)
    (waiting : Option Approval) (rows rows' : List Approval) (outcome : Outcome)
    → Routed decision comment level waiting rows outcome rows'
    → may_move (expected_expense_status level) outcome.next_status ≡ true
unfolding may_move expected_expense_status
Routed-may_move Decision.reject comment ApprovalLevel.manager waiting rows rows' outcome (q, _) =
    rw q refl
Routed-may_move Decision.reject comment ApprovalLevel.finance waiting rows rows' outcome (q, _) =
    rw q refl
Routed-may_move Decision.approve comment ApprovalLevel.finance waiting rows rows' outcome (q, _) =
    rw q refl
Routed-may_move Decision.approve comment ApprovalLevel.manager none rows rows' outcome (q, _) =
    rw q refl
Routed-may_move Decision.approve comment ApprovalLevel.manager (some a) rows rows' outcome
      (q, _, _) =
    rw q refl

pub decided_expense-IsMoved :
    (env : Env) (id : Text) (level : ApprovalLevel) (version : ℕ) (outcome : Outcome) (e : Expense)
    → may_move (expected_expense_status level) outcome.next_status ≡ true
    → is_as_seen id (expected_expense_status level) version e ≡ true
    → IsMoved e (decided_expense env outcome e)
unfolding decided_expense is_as_seen
decided_expense-IsMoved env id level version outcome e may seen =
    let same : e.status ≡ expected_expense_status level = ground arith in
    record { status = rw same may; version = refl; kept = refl }
