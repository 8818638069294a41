-- ===== src/Workflow/Moves.antt =====
-- One expense moves to its next status, and the approvals of that expense with it.
use expenseflow.Common.{
  ◌≡◌, ◌≢◌, inl, inr, Text, List, Bool, true, In, count, map_where, map_where-In, In-map_where,
  count-one, Bool-cases, sym, subst, ap, if◌then◌else◌, ◌∙◌,
}
use mathlib.Core.Path.{subst₂}
use expenseflow.Schema.{Expense, ExpenseStatus, Approval, ApprovalLevel, ApprovalStatus}
use expenseflow.Expenses.{approval_clash}
use expenseflow.Approvals.{expected_expense_status}
use expenseflow.Workflow.Consistent.{Allowed, Open, IsConsistent}

-- A change of one approval, which keeps its keys.
pub record IsRowChange (new : Approval → Approval) : Type 0 where
  pub same_id : (a : Approval) → (new a).id ≡ a.id
  pub same_expense : (a : Approval) → (new a).expense_id ≡ a.expense_id
  pub same_level : (a : Approval) → (new a).level ≡ a.level

-- The rows after a change of each row.
pub record IsImage (rows : List Approval) (new : Approval → Approval) (rows' : List Approval)
    : Type 0 where
  pub from : (b : Approval) → In b rows' → (a : Approval) × In a rows × (b ≡ new a)
  pub to : (a : Approval) → In a rows → In (new a) rows'

pub map_where-IsImage :
    (p : Approval → Bool) (f : Approval → Approval) (rows : List Approval)
    → IsImage rows (λ a. if p a then f a else a) (map_where p f rows)
map_where-IsImage p f rows = record {
  from = λ b m. In-map_where p f rows b m;
  to = λ a m. map_where-In p f rows a m;
}

pub IsImage-trans :
    (rows rows1 rows2 : List Approval) (f g : Approval → Approval)
    → IsImage rows f rows1
    → IsImage rows1 g rows2
    → IsImage rows (λ a. g (f a)) rows2
IsImage-trans rows rows1 rows2 f g h k = record {
  from =
      λ b m. let (c, mc, pc) = k.from b m in let (a, ma, pa) = h.from c mc in (a, ma, pc ∙ ap g pa);
  to = λ a m. k.to (f a) (h.to a m);
}

-- A key clash of two changed rows is one of the rows.
clash-change :
    (new : Approval → Approval) (a b : Approval)
    → IsRowChange new
    → approval_clash (new a) (new b) ≡ true
    → approval_clash a b ≡ true
unfolding approval_clash
clash-change new a b c h = simp (c.same_id, c.same_expense, c.same_level) at h

module _ (es : List Expense) (rows rows' : List Approval) (x : Text) (next : ExpenseStatus)
    (picked : Expense → Bool) (change : Expense → Expense) (new : Approval → Approval)
    (inv : IsConsistent es rows) (counted : count picked es ≡ 1)
    (picked_id : (e : Expense) → picked e ≡ true → e.id ≡ x)
    (change_id : (e : Expense) → (change e).id ≡ e.id)
    (change_status : (e : Expense) → (change e).status ≡ next) (row_change : IsRowChange new)
    (image : IsImage rows new rows')
    (elsewhere : (a : Approval) → In a rows → a.expense_id ≢ x → new a ≡ a)
    (here : (a : Approval) → In a rows → a.expense_id ≡ x → Allowed next a.level (new a).status)
    (open_next : (level : ApprovalLevel)
      → next ≡ expected_expense_status level
      → (a : Approval) × In a rows
        × (a.expense_id ≡ x)
        × (a.level ≡ level)
        × ((new a).status ≡ ApprovalStatus.pending)) where
  abbrev moved : Expense → Expense
  moved e = if picked e then change e else e

  moved-id : (e : Expense) → (moved e).id ≡ e.id
  moved-id e = elim (Bool-cases (picked e)) [ inl p ↦ rw p (change_id e) | inr p ↦ rw p ]

  picked_of_id : (e : Expense) → In e es → e.id ≡ x → picked e ≡ true
  picked_of_id e m q =
      let (d, n, p) = count-one picked es counted in
      subst (λ y. picked y ≡ true) (inv.expense_ids d e n m (picked_id d p ∙ sym q)) p

  moved-Allowed :
      (e : Expense) (a : Approval)
      → In e es
      → In a rows
      → a.expense_id ≡ e.id
      → Allowed (moved e).status a.level (new a).status
  moved-Allowed e a me ma q = elim (Bool-cases (picked e)) [
    | inl p ↦ rw p (
        subst (λ st. Allowed st a.level (new a).status) (sym (change_status e))
          (here a ma (q ∙ picked_id e p)))
    | inr p ↦ rw p (
        subst (λ b. Allowed e.status a.level b.status)
          (sym
            (elsewhere a ma (λ at. absurd (let t = picked_of_id e me (sym q ∙ at) in cc (t, p)))))
          (inv.allowed e a me ma q))
  ]

  moved-Open :
      (e : Expense) (level : ApprovalLevel)
      → In e es
      → (moved e).status ≡ expected_expense_status level
      → Open rows' (moved e) level
  moved-Open e level me st = elim (Bool-cases (picked e)) [
    | inl p ↦
        let (a, ma, q, l, w) = open_next level (sym (change_status e) ∙ (rw p at st)) in
        (
          new a,
          image.to a ma,
          row_change.same_expense a ∙ (q ∙ (sym (picked_id e p) ∙ sym (moved-id e))),
          row_change.same_level a ∙ l,
          w,
        )
    | inr p ↦
        let (a, ma, q, l, w) = inv.awaiting e level me (rw p at st) in
        let same =
          elsewhere a ma (λ at. absurd (let t = picked_of_id e me (sym q ∙ at) in cc (t, p))) in
        (
          new a,
          image.to a ma,
          row_change.same_expense a ∙ (q ∙ sym (moved-id e)),
          row_change.same_level a ∙ l,
          ap (λ b. b.status) same ∙ w,
        )
  ]

  pub moved-IsConsistent : IsConsistent (map_where picked change es) rows'
  moved-IsConsistent = record {
    expense_ids = λ d' e' md me q.
        let (d, md0, pd) = In-map_where picked change es d' md in
        let (e, me0, pe) = In-map_where picked change es e' me in
        let same =
          inv.expense_ids d e md0 me0 (
            sym (moved-id d)
            ∙ (ap (λ y. y.id) (sym pd) ∙ (q ∙ (ap (λ y. y.id) pe ∙ moved-id e)))) in
        pd ∙ (ap moved same ∙ sym pe);
    unique = λ a' b' ma mb h.
        let (a, ma0, pa) = image.from a' ma in
        let (b, mb0, pb) = image.from b' mb in
        let same =
          inv.unique a b ma0 mb0
            (clash-change new a b row_change (subst₂ (λ y z. approval_clash y z ≡ true) pa pb h)) in
        pa ∙ (ap new same ∙ sym pb);
    owned = λ a' ma.
        let (a, ma0, pa) = image.from a' ma in
        let (e, me, q) = inv.owned a ma0 in
        (
          moved e,
          map_where-In picked change es e me,
          moved-id e ∙ (q ∙ (sym (row_change.same_expense a) ∙ ap (λ y. y.expense_id) (sym pa))),
        );
    allowed = λ e' a' me ma q.
        let (e, me0, pe) = In-map_where picked change es e' me in
        let (a, ma0, pa) = image.from a' ma in
        let q0 : a.expense_id ≡ e.id =
          sym (row_change.same_expense a)
          ∙ (ap (λ y. y.expense_id) (sym pa) ∙ (q ∙ (ap (λ y. y.id) pe ∙ moved-id e))) in
        subst₂ (λ y z. Allowed y.status z.level z.status) (sym pe) (sym pa)
          (subst (λ l. Allowed (moved e).status l (new a).status) (sym (row_change.same_level a))
            (moved-Allowed e a me0 ma0 q0));
    awaiting = λ e' level me st.
        let (e, me0, pe) = In-map_where picked change es e' me in
        subst (λ y. Open rows' y level) (sym pe)
          (moved-Open e level me0 (ap (λ y. y.status) (sym pe) ∙ st));
  }
