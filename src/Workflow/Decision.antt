-- ===== src/Workflow/Decision.antt =====
-- The transaction of `decide` of approvals.service.ts over consistent tables, when it decides on what
-- was read from an earlier state of the store.
use mathlib.Core.Path.{subst₂}
use expenseflow.Common.{
  ◌≡◌, ◌≢◌, ◌⊎◌, inl, inr, refl, Text, List, Option, none, some, Bool, true, In, count, map_where,
  In-map_where, count-one, Bool-cases, sym, subst, ap, if◌then◌else◌, ◌∙◌, arith, ok, err, Result,
}
use expenseflow.Schema.{Expense, ExpenseStatus, Approval, ApprovalLevel, ApprovalStatus, Store}
use expenseflow.Database.{Client, IsClient, Env, commit-err}
use expenseflow.Expenses.{AuthUser}
use expenseflow.Approvals.{
  Decision, DecideApprovalDto, Pending, Outcome, is_undecided, decided_approval, is_skipped,
  woken_approval, is_as_seen, decided_expense, expected_expense_status, finance_outcome,
  find_finance, decide_write,
}
use expenseflow.Approvals.Inversion.{Routed, decide_write-Decided}
use expenseflow.Workflow.Consistent.{Allowed, IsConsistent}
use expenseflow.Workflow.Facts.{approval_clash_of_slot}
use expenseflow.Workflow.Moves.{IsRowChange, map_where-IsImage, IsImage-trans, moved-IsConsistent}
use expenseflow.Workflow.Seen.{
  IsSeen, is_undecided-true, is_skipped-true, is_as_seen-true, rejected_ends, approved_ends,
}

module _ (env : Env) (user : AuthUser) (id : Text) (dto : DecideApprovalDto) (seen : Pending)
    (es : List Expense) (rows : List Approval) (inv : IsConsistent es rows)
    (known : IsSeen id seen es rows)
    (decided_one : count (is_undecided user id dto.expected_version) rows ≡ 1)
    (moved_one : count
        (is_as_seen seen.approval.expense_id
          (expected_expense_status seen.approval.level)
          seen.expense.version)
        es
      ≡ 1) where
  abbrev x : Text
  x = seen.approval.expense_id

  abbrev picked : Expense → Bool
  picked = is_as_seen x (expected_expense_status seen.approval.level) seen.expense.version

  abbrev undecided : Approval → Bool
  undecided = is_undecided user id dto.expected_version

  abbrev step : Approval → Approval
  step a = if undecided a then decided_approval env dto a else a

  -- The decided approval is the one of its expense and level.
  undecided_slot :
      (a : Approval)
      → In a rows
      → undecided a ≡ true
      → (a.expense_id ≡ x) × (a.level ≡ seen.approval.level)
  undecided_slot a m h =
      known.approval_stays a m (is_undecided-true user id dto.expected_version a h).0

  slot_undecided :
      (a : Approval)
      → In a rows
      → a.expense_id ≡ x
      → a.level ≡ seen.approval.level
      → undecided a ≡ true
  slot_undecided a m q l =
      let (d, n, h) = count-one undecided rows decided_one in
      let (dq, dl) = undecided_slot d n h in
      subst (λ b. undecided b ≡ true)
        (inv.unique d a n m (approval_clash_of_slot d a (dq ∙ sym q) (dl ∙ sym l))) h

  -- The approvals of the expense are those of an expense that waits at this level.
  before :
      (a : Approval)
      → In a rows
      → a.expense_id ≡ x
      → Allowed (expected_expense_status seen.approval.level) a.level a.status
  before a m q =
      let (d, n, h) = count-one picked es moved_one in
      let (di, ds, _) = is_as_seen-true x _ seen.expense.version d h in
      subst (λ st. Allowed st a.level a.status) ds (inv.allowed d a n m (q ∙ sym di))

  step-IsRowChange : IsRowChange step
  unfolding decided_approval
  step-IsRowChange = record {
    same_id = λ a. ground arith;
    same_expense = λ a. ground arith;
    same_level = λ a. ground arith;
  }

  step_elsewhere : (a : Approval) → In a rows → a.expense_id ≢ x → step a ≡ a
  step_elsewhere a m ne = elim (Bool-cases (undecided a)) [
    | inl h ↦ absurd (ne (undecided_slot a m h).0)
    | inr h ↦ rw h
  ]

  abbrev paid : Outcome → List Expense
  paid outcome = map_where picked (decided_expense env outcome) es

  -- A decision that ends the workflow: no approval is woken.
  final :
      (outcome : Outcome)
      → ((level : ApprovalLevel) → outcome.next_status ≢ expected_expense_status level)
      → ((a : Approval)
          → In a rows
          → a.expense_id ≡ x
          → Allowed outcome.next_status a.level (step a).status)
      → IsConsistent (paid outcome) (map_where undecided (decided_approval env dto) rows)
  unfolding decided_expense
  final outcome ends here =
      moved-IsConsistent es rows _ x outcome.next_status picked (decided_expense env outcome) step
        inv moved_one (λ e h. (is_as_seen-true x _ seen.expense.version e h).0) (λ e. refl)
        (λ e. refl) step-IsRowChange (map_where-IsImage undecided (decided_approval env dto) rows)
        step_elsewhere here (λ level e. absurd (ends level e))

  rejected_here :
      dto.decision ≡ Decision.reject
      → (a : Approval) → In a rows
      → a.expense_id ≡ x
      → Allowed ExpenseStatus.rejected a.level (step a).status
  unfolding decided_approval expected_expense_status
  rejected_here d a m q = ground (arith, before a m q, undecided_slot a m, slot_undecided a m q)

  -- An approval by finance, or by the manager where finance is not asked.
  approved_here :
      dto.decision ≡ Decision.approve
      → (seen.approval.level ≡ ApprovalLevel.finance) ⊎ (find_finance seen.approvals ≡ none)
      → (a : Approval) → In a rows
      → a.expense_id ≡ x
      → Allowed ExpenseStatus.approved a.level (step a).status
  unfolding decided_approval expected_expense_status
  approved_here d (inl l) a m q =
      ground (arith, before a m q, undecided_slot a m, slot_undecided a m q)
  approved_here d (inr none_seen) a m q =
      let (e, n, h) = count-one picked es moved_one in
      ground (
        arith,
        before a m q,
        undecided_slot a m,
        slot_undecided a m q,
        known.none_added none_seen e n h a m q,
      )

  -- An approval by the manager that hands the expense on to finance.
  module _ (f : Approval) (approve : dto.decision ≡ Decision.approve)
      (by_manager : seen.approval.level ≡ ApprovalLevel.manager)
      (waiting : find_finance seen.approvals ≡ some f)
      (woken_one : count (is_skipped f) (map_where undecided (decided_approval env dto) rows)
        ≡ 1) where
    abbrev wake : Approval → Approval
    wake a = if is_skipped f a then woken_approval a else a

    abbrev onward : Approval → Approval
    onward a = wake (step a)

    onward-IsRowChange : IsRowChange onward
    unfolding woken_approval decided_approval
    onward-IsRowChange = record {
      same_id = λ a. ground arith;
      same_expense = λ a. ground arith;
      same_level = λ a. ground arith;
    }

    onward_elsewhere : (a : Approval) → In a rows → a.expense_id ≢ x → onward a ≡ a
    onward_elsewhere a m ne = elim (Bool-cases (is_skipped f a)) [
      | inl h ↦ absurd (ne (known.finance_stays f waiting a m (is_skipped-true f a h).0).0)
      | inr h ↦ rw (step_elsewhere a m ne) (rw h)
    ]

    -- The approval that is woken: the expense's at the finance level.
    sleeper :
        (b : Approval) × In b rows
        × (b.expense_id ≡ x)
        × (b.level ≡ ApprovalLevel.finance)
        × (is_skipped f (step b) ≡ true)
    sleeper =
        let (c, mc, h) = count-one (is_skipped f) _ woken_one in
        let (b, mb, pb) = In-map_where undecided (decided_approval env dto) rows c mc in
        let named : b.id ≡ f.id =
          sym (step-IsRowChange.same_id b)
          ∙ (ap (λ y. y.id) (sym pb) ∙ (is_skipped-true f c h).0) in
        let (q, l) = known.finance_stays f waiting b mb named in
        (b, mb, q, l, subst (λ y. is_skipped f y ≡ true) pb h)

    finance_woken :
        (a : Approval)
        → In a rows
        → a.expense_id ≡ x
        → a.level ≡ ApprovalLevel.finance
        → is_skipped f (step a) ≡ true
    finance_woken a m q l =
        let (b, mb, qb, lb, h) = sleeper in
        subst (λ y. is_skipped f (step y) ≡ true)
          (inv.unique b a mb m (approval_clash_of_slot b a (qb ∙ sym q) (lb ∙ sym l))) h

    onward_here :
        (a : Approval)
        → In a rows
        → a.expense_id ≡ x
        → Allowed ExpenseStatus.pending_finance a.level (onward a).status
    unfolding decided_approval woken_approval expected_expense_status
    onward_here a m q = ground (
      arith,
      before a m q,
      undecided_slot a m,
      slot_undecided a m q,
      finance_woken a m q,
      is_skipped-true f (step a),
    )

    onward_open :
        (level : ApprovalLevel)
        → ExpenseStatus.pending_finance ≡ expected_expense_status level
        → (a : Approval) × In a rows
          × (a.expense_id ≡ x)
          × (a.level ≡ level)
          × ((onward a).status ≡ ApprovalStatus.pending)
    unfolding expected_expense_status woken_approval
    onward_open ApprovalLevel.manager e = absurd (cc)
    onward_open ApprovalLevel.finance e = let (b, mb, q, l, h) = sleeper in (b, mb, q, l, rw h)

    handed_on : IsConsistent (paid finance_outcome) (
        map_where
          (is_skipped f)
          woken_approval
          (map_where undecided (decided_approval env dto) rows))
    unfolding decided_expense
    handed_on =
        moved-IsConsistent es rows _ x ExpenseStatus.pending_finance picked
          (decided_expense env finance_outcome) onward inv moved_one
          (λ e h. (is_as_seen-true x _ seen.expense.version e h).0) (λ e. refl) (λ e. refl)
          onward-IsRowChange
          (IsImage-trans rows _ _ step wake
            (map_where-IsImage undecided (decided_approval env dto) rows)
            (map_where-IsImage (is_skipped f) woken_approval _))
          onward_elsewhere onward_here onward_open

  -- The three ways on.
  Routed-IsConsistent :
      (outcome : Outcome) (rows' : List Approval) (decision : Decision) (level : ApprovalLevel)
      (waiting : Option Approval)
      → dto.decision ≡ decision
      → seen.approval.level ≡ level
      → find_finance seen.approvals ≡ waiting
      → Routed decision dto.comment level waiting
          (map_where undecided (decided_approval env dto) rows)
          outcome
          rows'
      → IsConsistent (paid outcome) rows'
  Routed-IsConsistent outcome rows' Decision.reject level waiting d l w (o, r) =
      subst₂ (λ y z. IsConsistent (paid y) z) (sym o) (sym r)
        (final _ rejected_ends (rejected_here d))
  Routed-IsConsistent outcome rows' Decision.approve ApprovalLevel.finance waiting d l w (o, r) =
      subst₂ (λ y z. IsConsistent (paid y) z) (sym o) (sym r)
        (final _ approved_ends (approved_here d (inl l)))
  Routed-IsConsistent outcome rows' Decision.approve ApprovalLevel.manager none d l w (o, r) =
      subst₂ (λ y z. IsConsistent (paid y) z) (sym o) (sym r)
        (final _ approved_ends (approved_here d (inr w)))
  Routed-IsConsistent outcome rows' Decision.approve ApprovalLevel.manager (some f) d l w
        (o, r, one) =
      subst₂ (λ y z. IsConsistent (paid y) z) (sym o) (sym r) (handed_on f d l w one)

module _ (db : Client) (laws : IsClient db) where
  -- The writing transaction of `decide` keeps the workflow consistent, however it ends, if what it
  -- was given as read is still true as far as `IsSeen` says.
  pub decide_write-IsConsistent :
      (env : Env) (user : AuthUser) (id : Text) (dto : DecideApprovalDto) (seen : Pending)
      (s : Store)
      → IsConsistent s.expenses s.approvals
      → IsSeen id seen s.expenses s.approvals
      → let t = (decide_write db env user id dto seen s).1 in IsConsistent t.expenses t.approvals
  unfolding decide_write
  decide_write-IsConsistent env user id dto seen s inv known =
      by_outcome (decide_write db env user id dto seen s) refl
    where
      by_outcome :
          (r : Result Expense × Store)
          → decide_write db env user id dto seen s ≡ r
          → IsConsistent r.1.expenses r.1.approvals
      by_outcome (ok result, s') e =
          let done = decide_write-Decided db laws env user id dto seen s s' result e in
          subst (λ y. IsConsistent y s'.approvals) (sym done.expenses)
            (Routed-IsConsistent env user id dto seen s.expenses s.approvals inv known
              done.decided_one done.moved_one done.outcome s'.approvals dto.decision
              seen.approval.level (find_finance seen.approvals) refl refl refl done.routed)
      by_outcome (err y, s') e =
          subst (λ t. IsConsistent t.expenses t.approvals) (sym (commit-err _ s s' y e)) inv
