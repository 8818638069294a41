-- ===== src/Workflow/Deciding.antt =====
-- `decide` of approvals.service.ts as a whole: what it reads, checks, writes and sends.
use expenseflow.Common.{
  ◌≡◌, refl, Text, text_eq_iff, In, arith, sym, subst, ap, ◌∙◌, ok, err, Result, ◌==◌, text_is_eq,
  find-some, find-none,
}
use expenseflow.Schema.{Expense, Approval, ApprovalLevel, Store, User, level_same_iff}
use expenseflow.Database.{
  Client, IsClient, Env, Keeps-after, commit_or_roll_back, commit-ok, after-ok, or_throw-ok, Runs,
  with_tenant, pure,
}
use expenseflow.Expenses.{AuthUser, owner_of}
use expenseflow.Approvals.{
  DecideApprovalDto, Pending, oldest_first, find_pending, check_pending, decide_write,
  finish_decision, notify_if_finance, notify_next_finance_approver, decide,
}
use expenseflow.Workflow.Facts.{approval_clash_of_id}
use expenseflow.Workflow.Seen.{IsSeen}
use expenseflow.Workflow.Decision.{decide_write-IsConsistent}
use expenseflow.Workflow.Requests.{
  Consistent, Untouched, Untouched-Consistent, write_log-Untouched, enqueue-Untouched, ended,
}

pub commit-reads :
    {A : Type 0} (r : Result A × Store) (s : Store) → r.1 ≡ s → (commit_or_roll_back s r).1 ≡ s
commit-reads (ok a, t) s e = e
commit-reads (err x, t) s e = refl

pure-ok : {A : Type 0} (a b : A) (s s' : Store) → Runs (pure a) s b s' → a ≡ b
pure-ok a b s s' e = cc

module _ (db : Client) where
  pub find_pending-reads :
      (user : AuthUser) (id : Text) (s : Store) → (find_pending db user id s).1 ≡ s
  unfolding find_pending owner_of
  find_pending-reads user id s = ground arith

  pub check_pending-reads :
      (dto : DecideApprovalDto) (seen : Pending) (s : Store) → (check_pending db dto seen s).1 ≡ s
  unfolding check_pending
  check_pending-reads dto seen s = ground arith

  pub finish_decision-Untouched :
      (env : Env) (user : AuthUser) (dto : DecideApprovalDto) (seen : Pending) (result : Expense)
      (s : Store)
      → Untouched s (finish_decision db env user dto seen result s).1
  unfolding finish_decision notify_if_finance notify_next_finance_approver
  finish_decision-Untouched env user dto seen result s =
      grind (arith, write_log-Untouched, enqueue-Untouched)

-- What was read is in the store.
pub record IsRead (user : AuthUser) (id : Text) (s : Store) (seen : Pending) : Type 0 where
  pub approval : In seen.approval s.approvals
  pub approval_id : seen.approval.id ≡ id
  pub approver : seen.approval.approver_id ≡ user.sub
  pub expense : In seen.expense s.expenses
  pub expense_id : seen.expense.id ≡ seen.approval.expense_id
  pub approvals_sound :
      (a : Approval) → In a seen.approvals → In a s.approvals × (a.expense_id ≡ seen.expense.id)
  pub approvals_complete :
      (a : Approval) → In a s.approvals → a.expense_id ≡ seen.expense.id → In a seen.approvals

module _ (db : Client) (laws : IsClient db) where
  pub find_pending-IsRead :
      (user : AuthUser) (id : Text) (s s' : Store) (seen : Pending)
      → Runs (find_pending db user id) s seen s'
      → IsRead user id s seen
  unfolding find_pending
  find_pending-IsRead user id s s' seen e =
      let (approval, s1, r1, e1) = after-ok _ _ s' seen e in
      let (p1, _) = or_throw-ok _ _ s s1 approval r1 in
      let (expense, s2, r2, e2) = after-ok _ _ s' seen e1 in
      let (p2, _) = or_throw-ok _ _ s1 s2 expense r2 in
      let (owner, s3, r3, e3) = after-ok {A = User} (owner_of db expense s2) _ s' seen e2 in
      let (m1, t1) = laws.find_first_some _ s.approvals approval p1 in
      let (m2, t2) = laws.find_first_some _ s.expenses expense p2 in
      let found : Pending = record {
        approval = approval;
        expense = expense;
        owner = owner;
        approvals = db.find_many oldest_first (λ row. row.expense_id == expense.id) s.approvals;
      } in
      let same : found ≡ seen = pure-ok found seen s3 s' e3 in
      subst (IsRead user id s) same (record {
        approval = m1;
        approval_id = ground (arith, text_eq_iff approval.id id);
        approver = ground (arith, text_eq_iff approval.approver_id user.sub);
        expense = m2;
        expense_id = (text_eq_iff expense.id approval.expense_id).0 t2;
        approvals_sound = λ a m.
            let (n, t) = laws.find_many_sound _ _ s.approvals a m in
            (n, (text_eq_iff a.expense_id expense.id).0 t);
        approvals_complete = λ a m q.
            laws.find_many_complete _ _ s.approvals a m ((text_eq_iff a.expense_id expense.id).1 q);
      })

  -- Nothing has changed since it was read, so it is as the decision needs it.
  IsRead-IsSeen :
      (user : AuthUser) (id : Text) (s : Store) (seen : Pending)
      → Consistent s
      → IsRead user id s seen
      → IsSeen id seen s.expenses s.approvals
  IsRead-IsSeen user id s seen inv r = record {
    approval_stays = λ a m q.
        let same =
          inv.unique a seen.approval m r.approval
            (approval_clash_of_id a seen.approval (q ∙ sym r.approval_id)) in
        (ap (λ y. y.expense_id) same, ap (λ y. y.level) same);
    finance_stays = λ f found a m q.
        let (mf, is_finance) = find-some _ seen.approvals f found in
        let (nf, qf) = r.approvals_sound f mf in
        let same = inv.unique a f m nf (approval_clash_of_id a f q) in
        (
          ap (λ y. y.expense_id) same ∙ (qf ∙ r.expense_id),
          ap (λ y. y.level) same ∙ (level_same_iff f.level ApprovalLevel.finance).0 is_finance,
        );
    none_added = λ missing e me h a m q l.
        let n = r.approvals_complete a m (q ∙ sym r.expense_id) in
        let no_finance = find-none _ seen.approvals a missing n in
        cc (no_finance, (level_same_iff a.level ApprovalLevel.finance).1 l);
  }

  -- If the tables Expense and Approval are consistent (unique keys, each approval in a status
  -- that its expense allows, an open approval for each waiting expense), they are so after any
  -- call of `decide`, whatever it ends with.
  pub decide-IsConsistent :
      (env : Env) (user : AuthUser) (id : Text) (dto : DecideApprovalDto) (s : Store)
      → Consistent s
      → Consistent (decide db env user id dto s).1
  unfolding decide
  decide-IsConsistent env user id dto s inv = Keeps-after Consistent read _ still λ seen e.
      let known = IsRead-IsSeen user id t seen still (
        subst (λ y. IsRead user id y seen) (sym unread)
          (find_pending-IsRead user id s t seen (commit-ok _ s t seen (ended read seen e)))) in
      let checked = check_pending db dto seen t in
      let same = check_pending-reads db dto seen t in
      Keeps-after Consistent checked _ (subst Consistent (sym same) still) λ u e'.
        let written = decide_write db env user id dto seen checked.1 in
        let kept : Consistent written.1 =
          decide_write-IsConsistent db laws env user id dto seen checked.1
            (subst Consistent (sym same) still)
            (subst (λ y. IsSeen id seen y.expenses y.approvals) (sym same) known) in
        Keeps-after Consistent written _ kept λ result e''.
          Untouched-Consistent written.1 (finish_decision db env user dto seen result written.1).1
            (finish_decision-Untouched db env user dto seen result written.1) kept
    where
      read : Result Pending × Store
      read = with_tenant user.organization_id (find_pending db user id) s

      t : Store
      t = read.1

      unread : t ≡ s
      unread = commit-reads (find_pending db user id s) s (find_pending-reads db user id s)

      still : Consistent t
      still = subst Consistent (sym unread) inv
