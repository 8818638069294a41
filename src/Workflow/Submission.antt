-- ===== src/Workflow/Submission.antt =====
-- The transaction of `submit` of expenses.service.ts over consistent tables.
use expenseflow.Common.{
  ◌≡◌, ◌≢◌, ◌⊎◌, inl, inr, refl, ℕ, Text, List, ◌++◌, Option, none, some, Bool, true, arith, In,
  count, map_where, map_where-In, In-map_where, count-one, In-append, Bool-cases, sym, subst, ap,
  if◌then◌else◌, ◌∙◌,
}
use mathlib.Core.List.{append_assoc}
use expenseflow.Schema.{Expense, ExpenseStatus, Approval, ApprovalLevel, ApprovalStatus, User}
use expenseflow.Database.{Env}
use expenseflow.Policies.{PolicyEvaluation}
use expenseflow.Expenses.{
  AuthUser, is_own_draft, submitted_row, resolve_submission_status, new_approval, manager_approval,
  finance_approval,
}
use expenseflow.Expenses.Inversion.{Added, manager_rows, finance_rows}
use expenseflow.Approvals.{expected_expense_status}
use expenseflow.Workflow.Consistent.{Allowed, Open, IsConsistent}
use expenseflow.Workflow.Facts.{is_own_draft-true, Added-Unique}

-- The approvers that the evaluation asks for have been found.
abbrev pub HasApprovers : PolicyEvaluation → Option User → Option User → Type 0
HasApprovers evaluation manager finance =
    (evaluation.require_manager ≡ true → manager ≢ none)
    × (evaluation.require_finance ≡ true → finance ≢ none)

module _ (env : Env) (id : Text) (evaluation : PolicyEvaluation)
    (manager finance : Option User) where
  abbrev routed_rows : List Approval
  routed_rows = manager_rows env id evaluation manager ++ finance_rows env id evaluation finance

  -- A routed approval belongs to the expense, and fits the status that the submission gives it.
  routed-Allowed :
      (a : Approval)
      → In a (manager_rows env id evaluation manager)
        ⊎ In a (finance_rows env id evaluation finance)
      → (a.expense_id ≡ id) × Allowed (resolve_submission_status evaluation) a.level a.status
  unfolding resolve_submission_status new_approval
  routed-Allowed a (inl m) = of_manager manager m
    where
      of_manager :
          (u : Option User)
          → In a (manager_rows env id evaluation u)
          → (a.expense_id ≡ id) × Allowed (resolve_submission_status evaluation) a.level a.status
      of_manager none k = absurd k
      of_manager (some u) k = ground arith
  routed-Allowed a (inr m) = of_finance finance m
    where
      of_finance :
          (u : Option User)
          → In a (finance_rows env id evaluation u)
          → (a.expense_id ≡ id) × Allowed (resolve_submission_status evaluation) a.level a.status
      of_finance none k = absurd k
      of_finance (some u) k = ground arith

  abbrev OpenRow : ApprovalLevel → List Approval → Type 0
  OpenRow level rows =
      (a : Approval) × In a rows
      × (a.expense_id ≡ id)
      × (a.level ≡ level)
      × (a.status ≡ ApprovalStatus.pending)

  open_manager :
      (u : Option User)
      → (evaluation.require_manager ≡ true → u ≢ none)
      → resolve_submission_status evaluation ≡ ExpenseStatus.pending_manager
      → OpenRow ApprovalLevel.manager (manager_rows env id evaluation u)
  unfolding resolve_submission_status new_approval
  open_manager none h e = absurd (h (ground arith) refl)
  open_manager (some u) h e = (manager_approval env id u, ground arith, refl, refl, refl)

  open_finance :
      (u : Option User)
      → (evaluation.require_finance ≡ true → u ≢ none)
      → resolve_submission_status evaluation ≡ ExpenseStatus.pending_finance
      → OpenRow ApprovalLevel.finance (finance_rows env id evaluation u)
  unfolding resolve_submission_status new_approval
  open_finance none h e = absurd (h (ground arith) refl)
  open_finance (some u) h e =
      (finance_approval env id evaluation u, ground arith, refl, refl, ground arith)

  -- Whoever is to decide first has an approval to decide on.
  routed_open :
      (level : ApprovalLevel)
      → HasApprovers evaluation manager finance
      → resolve_submission_status evaluation ≡ expected_expense_status level
      → OpenRow level routed_rows
  unfolding expected_expense_status
  routed_open ApprovalLevel.manager h e =
      let (a, m, q, l, p) = open_manager manager h.0 e in
      (a, (In-append a _ (finance_rows env id evaluation finance)).1 (inl m), q, l, p)
  routed_open ApprovalLevel.finance h e =
      let (a, m, q, l, p) = open_finance finance h.1 e in
      (a, (In-append a (manager_rows env id evaluation manager) _).1 (inr m), q, l, p)

-- The expense and the approvals of a consistent store.
module _ (env : Env) (user : AuthUser) (id : Text) (expected : ℕ) (evaluation : PolicyEvaluation)
    (manager finance : Option User) (es : List Expense) (rows : List Approval)
    (inv : IsConsistent es rows) (counted : count (is_own_draft user id expected) es ≡ 1)
    (manager_added : Added rows (manager_rows env id evaluation manager))
    (finance_added : Added
      (rows ++ manager_rows env id evaluation manager)
      (finance_rows env id evaluation finance))
    (approvers : HasApprovers evaluation manager finance) where
  abbrev own : Expense → Bool
  own = is_own_draft user id expected

  abbrev submit_row : Expense → Expense
  submit_row = submitted_row env evaluation (resolve_submission_status evaluation)

  abbrev paid : List Expense
  paid = map_where own submit_row es

  abbrev approvals : List Approval
  approvals =
      (rows ++ manager_rows env id evaluation manager) ++ finance_rows env id evaluation finance

  abbrev changed : Expense → Expense
  changed e = if own e then submit_row e else e

  changed-id : (e : Expense) → (changed e).id ≡ e.id
  unfolding submitted_row
  changed-id e = ground arith

  -- The submitted expense is the only one with its id.
  own_of_id : (e : Expense) → In e es → e.id ≡ id → own e ≡ true
  own_of_id e m q =
      let (d, n, own_d) = count-one own es counted in
      let same = inv.expense_ids e d m n (q ∙ sym (is_own_draft-true user id expected d own_d).0) in
      subst (λ x. own x ≡ true) (sym same) own_d

  In-approvals :
      (a : Approval)
      → In a approvals
      → In a rows
        ⊎ (In a (manager_rows env id evaluation manager)
            ⊎ In a (finance_rows env id evaluation finance))
  In-approvals a m = ground (
    arith,
    In-append a (rows ++ manager_rows env id evaluation manager)
        (finance_rows env id evaluation finance),
    In-append a rows (manager_rows env id evaluation manager),
  )

  kept_allowed :
      (e : Expense) (a : Approval)
      → In e es
      → In a approvals
      → a.expense_id ≡ e.id
      → Allowed (changed e).status a.level a.status
  unfolding submitted_row
  kept_allowed e a me ma q = elim (Bool-cases (own e)) [
    | inl mine ↦ elim (In-approvals a ma) [
      | inl old ↦ absurd (
          subst (λ st. Allowed st a.level a.status) (is_own_draft-true user id expected e mine).1
            (inv.allowed e a me old q))
      | inr new ↦ rw mine (routed-Allowed env id evaluation manager finance a new).1
    ]
    | inr other ↦ elim (In-approvals a ma) [
      | inl old ↦ rw other (inv.allowed e a me old q)
      | inr new ↦ absurd (
          let routed = (routed-Allowed env id evaluation manager finance a new).0 in
          let mine = own_of_id e me (sym q ∙ routed) in cc (mine, other))
    ]
  ]

  kept_awaiting :
      (e : Expense) (level : ApprovalLevel)
      → In e es
      → (changed e).status ≡ expected_expense_status level
      → Open approvals (changed e) level
  unfolding submitted_row
  kept_awaiting e level me st = elim (Bool-cases (own e)) [
    | inl mine ↦
        let (a, m, q, l, p) =
          routed_open env id evaluation manager finance level approvers (rw mine at st) in
        let named : (changed e).id ≡ id =
          changed-id e ∙ (is_own_draft-true user id expected e mine).0 in
        (
          a,
          subst (In a)
              (sym (
                append_assoc rows (manager_rows env id evaluation manager)
                  (finance_rows env id evaluation finance)))
              ((In-append a rows _).1 (inr m)),
          q ∙ sym named,
          l,
          p,
        )
    | inr other ↦
        let (a, m, q, l, p) = inv.awaiting e level me (rw other at st) in
        (
          a,
          (In-append a _ (finance_rows env id evaluation finance)).1
              (inl ((In-append a rows (manager_rows env id evaluation manager)).1 (inl m))),
          q ∙ sym (changed-id e),
          l,
          p,
        )
  ]

  kept_owned : (a : Approval) → In a approvals → (e : Expense) × In e paid × (e.id ≡ a.expense_id)
  kept_owned a m = elim (In-approvals a m) [
    | inl old ↦
        let (e, me, q) = inv.owned a old in
        (changed e, map_where-In own submit_row es e me, changed-id e ∙ q)
    | inr new ↦
        let (d, md, own_d) = count-one own es counted in
        (
          changed d,
          map_where-In own submit_row es d md,
          changed-id d
              ∙ ((is_own_draft-true user id expected d own_d).0
                  ∙ sym (routed-Allowed env id evaluation manager finance a new).0),
        )
  ]

  pub submitted-IsConsistent : IsConsistent paid approvals
  submitted-IsConsistent = record {
    expense_ids = λ d' e' md me q.
        let (d, md0, pd) = In-map_where own submit_row es d' md in
        let (e, me0, pe) = In-map_where own submit_row es e' me in
        let same = inv.expense_ids d e md0 me0 (
          sym (changed-id d)
          ∙ (ap (λ x. x.id) (sym pd) ∙ (q ∙ (ap (λ x. x.id) pe ∙ changed-id e)))) in
        pd ∙ (ap changed same ∙ sym pe);
    unique = Added-Unique _ _ (Added-Unique _ _ inv.unique manager_added) finance_added;
    owned = kept_owned;
    allowed = λ e' a me ma q.
        let (e, me0, pe) = In-map_where own submit_row es e' me in
        subst (λ x. Allowed x.status a.level a.status) (sym pe)
          (kept_allowed e a me0 ma (q ∙ (ap (λ x. x.id) pe ∙ changed-id e)));
    awaiting = λ e' level me st.
        let (e, me0, pe) = In-map_where own submit_row es e' me in
        subst (λ x. Open approvals x level) (sym pe)
          (kept_awaiting e level me0 (sym (ap (λ x. x.status) pe) ∙ st));
  }
