-- ===== src/Approvals/Inversion.antt =====
-- What the writing transaction of `decide` has done when it ends well.
use expenseflow.Common.{
  ◌≡◌, refl, Text, List, Option, none, some, Bool, true, not, eqb, arith, In, map_where, count,
  ◌==◌, text_is_eq, ◌∙◌, ap, sym, subst,
}
use mathlib.Core.Path.{subst₂}
use expenseflow.Schema.{Expense, Approval, ApprovalLevel, Store}
use expenseflow.Database.{Client, IsClient, Env, Runs, after-ok, commit-ok, throw_if-ok}
use expenseflow.Expenses.{AuthUser}
use expenseflow.Expenses.Inversion.{update_expense-Runs, find_expense_or_throw-Runs}
use expenseflow.Approvals.{
  Decision, DecideApprovalDto, Pending, Outcome, stale_approval_conflict, is_undecided,
  decided_approval, is_skipped, woken_approval, is_as_seen, decided_expense,
  expected_expense_status, rejected_outcome, approved_outcome, finance_outcome, find_finance,
  update_approval, route_approved, route, decide_write,
}

-- Which way an approval goes: the outcome, and the approvals before and after.
abbrev pub RoutedApproved :
    ApprovalLevel → Option Approval → List Approval → Outcome → List Approval → Type 0
RoutedApproved ApprovalLevel.finance waiting rows outcome rows' =
    (outcome ≡ approved_outcome) × (rows' ≡ rows)
RoutedApproved ApprovalLevel.manager none rows outcome rows' =
    (outcome ≡ approved_outcome) × (rows' ≡ rows)
RoutedApproved ApprovalLevel.manager (some finance) rows outcome rows' =
    (outcome ≡ finance_outcome)
    × (rows' ≡ map_where (is_skipped finance) woken_approval rows)
    × (count (is_skipped finance) rows ≡ 1)

abbrev pub Routed :
    Decision
    → Option Text
    → ApprovalLevel
    → Option Approval
    → List Approval
    → Outcome
    → List Approval
    → Type 0
Routed Decision.reject comment level waiting rows outcome rows' =
    (outcome ≡ rejected_outcome level comment) × (rows' ≡ rows)
Routed Decision.approve comment level waiting rows outcome rows' =
    RoutedApproved level waiting rows outcome rows'

-- What the transaction of `decide` leaves behind.
pub record Decided (env : Env) (user : AuthUser) (id : Text) (dto : DecideApprovalDto)
    (seen : Pending) (s : Store) (result : Expense) (s' : Store) : Type 0 where
  pub decided_one : count (is_undecided user id dto.expected_version) s.approvals ≡ 1
  pub outcome : Outcome
  pub routed :
      Routed dto.decision dto.comment seen.approval.level
        (find_finance seen.approvals)
        (map_where
          (is_undecided user id dto.expected_version)
          (decided_approval env dto)
          s.approvals)
        outcome
        s'.approvals
  pub moved_one :
      count
        (is_as_seen seen.approval.expense_id
          (expected_expense_status seen.approval.level)
          seen.expense.version)
        s.expenses
      ≡ 1
  pub expenses :
      s'.expenses
      ≡ map_where
          (is_as_seen seen.approval.expense_id
            (expected_expense_status seen.approval.level)
            seen.expense.version)
          (decided_expense env outcome)
          s.expenses
  pub rest : s' ≡ record s { approvals = s'.approvals; expenses = s'.expenses }
  pub returned : In result s'.expenses
  pub returned_id : (result.id == seen.approval.expense_id) ≡ true

-- The three writes in a row: to the approvals, to the approvals again, and to the expenses.
module _ (env : Env) (user : AuthUser) (id : Text) (dto : DecideApprovalDto) (seen : Pending)
    (s s1 s2 s3 s' : Store) (result : Expense) (outcome : Outcome) where
  abbrev undecided : Approval → Bool
  undecided = is_undecided user id dto.expected_version

  abbrev as_seen : Expense → Bool
  as_seen =
      is_as_seen seen.approval.expense_id (expected_expense_status seen.approval.level)
        seen.expense.version

  abbrev decided_rows : List Approval
  decided_rows = map_where undecided (decided_approval env dto) s.approvals

  abbrev moved_rows : List Expense → List Expense
  moved_rows rows = map_where as_seen (decided_expense env outcome) rows

  abbrev RoutedTo : List Approval → List Approval → Type 0
  RoutedTo rows rows' =
      Routed dto.decision dto.comment seen.approval.level (find_finance seen.approvals) rows outcome
        rows'

  assemble :
      s1 ≡ record s { approvals = decided_rows }
      → count undecided s.approvals ≡ 1
      → s2 ≡ record s1 { approvals = s2.approvals }
      → RoutedTo s1.approvals s2.approvals
      → s3 ≡ record s2 { expenses = moved_rows s2.expenses }
      → count as_seen s2.expenses ≡ 1
      → s' ≡ s3
      → In result s3.expenses
      → (result.id == seen.approval.expense_id) ≡ true
      → Decided env user id dto seen s result s'
  assemble p1 one p2 routed p3 moved p4 member named =
      let same_rows : s'.approvals ≡ s2.approvals = ap (λ r. r.approvals) (p4 ∙ p3) in
      let unpaid : s2.expenses ≡ s.expenses = ap (λ r. r.expenses) p2 ∙ ap (λ r. r.expenses) p1 in
      record {
        decided_one = one;
        outcome = outcome;
        routed = subst₂ RoutedTo (ap (λ r. r.approvals) p1) (sym same_rows) routed;
        moved_one = subst (λ rows. count as_seen rows ≡ 1) unpaid moved;
        expenses = ap (λ r. r.expenses) (p4 ∙ p3) ∙ ap moved_rows unpaid;
        rest = ground arith;
        returned = subst (λ r. In result r.expenses) (sym p4) member;
        returned_id = named;
      }

module _ (db : Client) (laws : IsClient db) where
  pub update_approval-Runs :
      (p : Approval → Bool) (change : Approval → Approval) (s s' : Store)
      → Runs (update_approval db p change) s tt s'
      → (s' ≡ record s { approvals = map_where p change s.approvals }) × (count p s.approvals ≡ 1)
  unfolding update_approval
  update_approval-Runs p change s s' e =
      let e' = rw laws.update_many_lem at e in
      let (one, same) =
        throw_if-ok (not (eqb (count p s.approvals) 1)) stale_approval_conflict
          (record s { approvals = map_where p change s.approvals }) s' tt e' in
      (same, ground arith)

  route_approved-Runs :
      (level : ApprovalLevel) (waiting : Option Approval) (s s' : Store) (outcome : Outcome)
      → Runs (route_approved db level waiting) s outcome s'
      → (s' ≡ record s { approvals = s'.approvals })
        × RoutedApproved level waiting s.approvals outcome s'.approvals
  unfolding route_approved
  route_approved-Runs ApprovalLevel.finance waiting s s' outcome e = ground arith
  route_approved-Runs ApprovalLevel.manager none s s' outcome e = ground arith
  route_approved-Runs ApprovalLevel.manager (some finance) s s' outcome e =
      let (_, s1, r1, e1) = after-ok _ _ s' outcome e in
      let (p1, one) = update_approval-Runs _ _ s s1 r1 in ground arith

  route-Runs :
      (dto : DecideApprovalDto) (seen : Pending) (s s' : Store) (outcome : Outcome)
      → Runs (route db dto seen) s outcome s'
      → (s' ≡ record s { approvals = s'.approvals })
        × Routed dto.decision dto.comment seen.approval.level
            (find_finance seen.approvals)
            s.approvals
            outcome
            s'.approvals
  unfolding route
  route-Runs dto seen s s' outcome e = by_decision dto.decision refl
    where
      by_decision :
          (d : Decision)
          → dto.decision ≡ d
          → (s' ≡ record s { approvals = s'.approvals })
            × Routed d dto.comment seen.approval.level
                (find_finance seen.approvals)
                s.approvals
                outcome
                s'.approvals
      by_decision Decision.approve q = route_approved-Runs _ _ s s' outcome (rw q at e)
      by_decision Decision.reject q = let e' = rw q at e in ground arith

  pub decide_write-Decided :
      (env : Env) (user : AuthUser) (id : Text) (dto : DecideApprovalDto) (seen : Pending)
      (s s' : Store) (result : Expense)
      → Runs (decide_write db env user id dto seen) s result s'
      → Decided env user id dto seen s result s'
  unfolding decide_write
  decide_write-Decided env user id dto seen s s' result e =
      let e0 = commit-ok _ s s' result e in
      let (_, s1, r1, e1) = after-ok _ _ s' result e0 in
      let (outcome, s2, r2, e2) = after-ok _ _ s' result e1 in
      let (_, s3, r3, e3) = after-ok _ _ s' result e2 in
      let (p1, one) = update_approval-Runs _ _ s s1 r1 in
      let (p2, routed) = route-Runs dto seen s1 s2 outcome r2 in
      let (p3, moved) = update_expense-Runs db laws _ _ _ s2 s3 r3 in
      let (p4, member, named) = find_expense_or_throw-Runs db laws _ s3 s' result e3 in
      assemble env user id dto seen s s1 s2 s3 s' result outcome p1 one p2 routed p3 moved p4 member
        named
