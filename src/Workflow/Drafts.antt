-- ===== src/Workflow/Drafts.antt =====
-- `create` and `completeReceiptUpload` of expenses.service.ts over consistent tables.
use expenseflow.Common.{
  ℕ, ◌≡◌, ◌≢◌, refl, sym, ap, ◌∙◌, subst, Text, text_eq_iff, text_is_eq, List, [], ◌∷◌, ◌++◌, none,
  some, Bool, false, ◌==◌, ◌⊎◌, inl, inr, In, In-append, In-map_where, any, any-false, map_where,
  map_where-In, Bool-cases, ok, err, Result, Error, internal, not, number_eq, arith, if◌then◌else◌,
}
use expenseflow.Schema.{Expense, ExpenseStatus, Approval, ApprovalLevel, Store, AuditLog, Metadata}
use expenseflow.Database.{
  Client, IsClient, Env, Action, after, Keeps-after, Keeps-commit, commit-err, commit_or_roll_back,
  or_throw, pure, throw_if, Keeps, Keeps-bind, Keeps-throw_if,
}
use expenseflow.Audit.{write_log}
use expenseflow.Receipts.{S3Settings, assert_object_belongs_to_expense, to_storage_uri}
use expenseflow.Expenses.{
  AuthUser, lift, set_expenses, log_of, CreateExpenseDto, same_expense_id, new_expense, create,
  is_own_draft, receipt_row, receipt_write, complete_receipt_upload, get_owned_draft_expense,
  find_owned, stale_expense_conflict,
}
use expenseflow.Expenses.Inversion.{receipt_write-Runs}
use expenseflow.Approvals.{expected_expense_status}
use expenseflow.Workflow.Consistent.{IsConsistent, Allowed}
use expenseflow.Workflow.Requests.{Consistent, Untouched, Untouched-Consistent, write_log-Untouched}

not_draft : (level : ApprovalLevel) → ExpenseStatus.draft ≢ expected_expense_status level
unfolding expected_expense_status
not_draft ApprovalLevel.manager e = absurd (cc (e))
not_draft ApprovalLevel.finance e = absurd (cc (e))

apart_ids : (a b : Expense) → same_expense_id a b ≡ false → a.id ≡ b.id → ⊥
apart_ids a b h e = ground (arith, text_eq_iff a.id b.id)

new_expense-draft :
    (env : Env) (user : AuthUser) (dto : CreateExpenseDto)
    → (new_expense env user dto).status ≡ ExpenseStatus.draft
unfolding new_expense
new_expense-draft env user dto = refl

-- A draft with a new id.
added-IsConsistent :
    (e : Expense) (expenses : List Expense) (approvals : List Approval)
    → any (same_expense_id e) expenses ≡ false
    → e.status ≡ ExpenseStatus.draft
    → IsConsistent expenses approvals
    → IsConsistent (expenses ++ e ∷ []) approvals
added-IsConsistent e expenses approvals free is_draft inv = record {
  expense_ids = λ a b m n same. elim (split a m) [
    | inl p ↦ elim (split b n) [
      | inl q ↦ inv.expense_ids a b p q same
      | inr q ↦ absurd (clash a p (ap (λ y. y.id) (sym q) ∙ sym same))
    ]
    | inr p ↦ elim (split b n) [
      | inl q ↦ absurd (clash b q (ap (λ y. y.id) (sym p) ∙ same))
      | inr q ↦ p ∙ sym q
    ]
  ];
  unique = inv.unique;
  owned = λ a m.
      let (d, n, same) = inv.owned a m in (d, (In-append d expenses (e ∷ [])).1 (inl n), same);
  allowed = λ d a m n same. elim (split d m) [
    | inl p ↦ inv.allowed d a p n same
    | inr p ↦
        let (owner, k, q) = inv.owned a n in
        absurd (clash owner k (ap (λ y. y.id) (sym p) ∙ (sym same ∙ sym q)))
  ];
  awaiting = λ d level m waits. elim (split d m) [
    | inl p ↦ inv.awaiting d level p waits
    | inr p ↦ absurd (not_draft level (sym is_draft ∙ (ap (λ y. y.status) (sym p) ∙ waits)))
  ];
}
  where
    split : (d : Expense) → In d (expenses ++ e ∷ []) → In d expenses ⊎ (d ≡ e)
    split d m = elim ((In-append d expenses (e ∷ [])).0 m) [
      | inl p ↦ inl p
      | inr p ↦ elim p [ inl q ↦ inr q | inr q ↦ absurd q ]
    ]

    clash : (d : Expense) → In d expenses → e.id ≡ d.id → ⊥
    clash d m same = apart_ids e d (any-false (same_expense_id e) expenses d free m) same

-- A change of expenses that leaves ids and states alone.
kept-IsConsistent :
    (p : Expense → Bool) (change : Expense → Expense) (expenses : List Expense)
    (approvals : List Approval)
    → ((e : Expense) → ((change e).id ≡ e.id) × ((change e).status ≡ e.status))
    → IsConsistent expenses approvals
    → IsConsistent (map_where p change expenses) approvals
kept-IsConsistent p change expenses approvals keeps inv = record {
  expense_ids = λ a b m n same.
      let (c, k, e) = In-map_where p change expenses a m in
      let (d, l, f) = In-map_where p change expenses b n in
      let one =
        inv.expense_ids c d k l
          (sym (same_id c) ∙ (ap (λ y. y.id) (sym e) ∙ (same ∙ (ap (λ y. y.id) f ∙ same_id d)))) in
      e ∙ (ap (λ y. if p y then change y else y) one ∙ sym f);
  unique = inv.unique;
  owned = λ a m.
      let (d, n, same) = inv.owned a m in (_, map_where-In p change expenses d n, same_id d ∙ same);
  allowed = λ d a m n same.
      let (c, k, e) = In-map_where p change expenses d m in
      subst (λ y. Allowed y a.level a.status) (sym (ap (λ y. y.status) e ∙ same_status c))
        (inv.allowed c a k n (same ∙ (ap (λ y. y.id) e ∙ same_id c)));
  awaiting = λ d level m waits.
      let (c, k, e) = In-map_where p change expenses d m in
      let (a, n, owner, at, open_) =
        inv.awaiting c level k (sym (ap (λ y. y.status) e ∙ same_status c) ∙ waits) in
      (a, n, owner ∙ sym (ap (λ y. y.id) e ∙ same_id c), at, open_);
}
  where
    same_id : (d : Expense) → (if p d then change d else d).id ≡ d.id
    same_id d = elim (Bool-cases (p d)) [ inl h ↦ rw h (keeps d).0 | inr h ↦ rw h refl ]

    same_status : (d : Expense) → (if p d then change d else d).status ≡ d.status
    same_status d = elim (Bool-cases (p d)) [ inl h ↦ rw h (keeps d).1 | inr h ↦ rw h refl ]

module _ (db : Client) (laws : IsClient db) where
  -- The transaction of `create`.
  unfoldable pub create_row : Expense → Action (Unit {0})
  create_row e s =
      after (or_throw (db.create same_expense_id e s.expenses) (internal "P2002") s) set_expenses

  create_row-IsConsistent :
      (e : Expense) (s : Store)
      → e.status ≡ ExpenseStatus.draft
      → Consistent s
      → Consistent (create_row e s).1
  unfolding create_row
  create_row-IsConsistent e s is_draft inv =
      elim (Bool-cases (any (same_expense_id e) s.expenses)) [
        | inl clash ↦ rw laws.create_lem (rw clash inv)
        | inr free ↦
            rw laws.create_lem
              (rw free (added-IsConsistent e s.expenses s.approvals free is_draft inv))
      ]

  -- `create` keeps the workflow consistent, whatever it ends with.
  pub create-IsConsistent :
      (env : Env) (user : AuthUser) (dto : CreateExpenseDto) (s : Store)
      → Consistent s
      → Consistent (create db env user dto s).1
  unfolding create create_row
  create-IsConsistent env user dto s inv =
      let e = new_expense env user dto in
      let made = commit_or_roll_back s (create_row e s) in
      let kept : Consistent made.1 =
        Keeps-commit Consistent (create_row e s) s inv
          (λ a ok_. create_row-IsConsistent e s (new_expense-draft env user dto) inv) in
      Keeps-after Consistent made _ kept
        λ u e'. Untouched-Consistent made.1 (logged made.1 e).1 (log-Untouched made.1 e) kept
    where
      logged : Store → Expense → Result Expense × Store
      logged t e =
          after
            (write_log db user.organization_id (log_of env 1 user e.id "expense.created" none) t)
            (λ u. pure e)

      log-Untouched : (t : Store) (e : Expense) → Untouched t (logged t e).1
      log-Untouched t e = grind (arith, write_log-Untouched)

  pub find_owned_draft-reads :
      (user : AuthUser) (id : Text) (s : Store) → (get_owned_draft_expense db user id s).1 ≡ s
  unfolding get_owned_draft_expense find_owned
  find_owned_draft-reads user id s = ground arith

  write_log-Keeps : (o : Text) (row : AuditLog) → Keeps Consistent (write_log db o row)
  write_log-Keeps o row s inv =
      Untouched-Consistent s (write_log db o row s).1 (write_log-Untouched db o row s) inv

  receipt_row-keeps :
      (uri : Text) (e : Expense)
      → ((receipt_row uri e).id ≡ e.id) × ((receipt_row uri e).status ≡ e.status)
  unfolding receipt_row
  receipt_row-keeps uri e = (refl, refl)

  pub receipt_write-err :
      (user : AuthUser) (id : Text) (expected : ℕ) (uri : Text) (s s' : Store) (x : Error)
      → receipt_write db user id expected uri s ≡ (err x, s')
      → s' ≡ s
  unfolding receipt_write
  receipt_write-err user id expected uri s s' x e = commit-err _ s s' x e

  receipt_write-Keeps :
      (user : AuthUser) (id : Text) (expected : ℕ) (uri : Text)
      → Keeps Consistent (receipt_write db user id expected uri)
  receipt_write-Keeps user id expected uri s inv =
      by_outcome (receipt_write db user id expected uri s) refl
    where
      by_outcome :
          (r : Result Expense × Store)
          → receipt_write db user id expected uri s ≡ r
          → Consistent r.1
      by_outcome (ok updated, s') e =
          let (left, counted) = receipt_write-Runs db laws user id expected uri s s' updated e in
          subst Consistent (sym left) (
            kept-IsConsistent (is_own_draft user id expected) (receipt_row uri) s.expenses
              s.approvals (receipt_row-keeps uri) inv)
      by_outcome (err x, s') e =
          subst Consistent (sym (receipt_write-err user id expected uri s s' x e)) inv

  -- `completeReceiptUpload` keeps the workflow consistent, whatever it ends with.
  pub complete_receipt_upload-IsConsistent :
      (settings : S3Settings) (env : Env) (user : AuthUser) (id object_key : Text) (expected : ℕ)
      → Keeps Consistent (complete_receipt_upload db settings env user id object_key expected)
  unfolding complete_receipt_upload
  complete_receipt_upload-IsConsistent settings env user id object_key expected =
      Keeps-bind Consistent (get_owned_draft_expense db user id) _
        (λ s inv. subst Consistent (sym (find_owned_draft-reads user id s)) inv)
        (λ current.
          Keeps-bind Consistent
            (throw_if (not (current.version == expected)) stale_expense_conflict) _
            (Keeps-throw_if Consistent (not (current.version == expected)) stale_expense_conflict)
            (λ u.
              Keeps-bind Consistent
                (lift (assert_object_belongs_to_expense user.organization_id id object_key)) _
                (λ s inv. inv)
                (λ u'.
                  Keeps-bind Consistent (lift (to_storage_uri settings object_key)) _ (λ s inv. inv)
                    (λ uri.
                      Keeps-bind Consistent (receipt_write db user id expected uri) _
                        (receipt_write-Keeps user id expected uri)
                        (λ e.
                          Keeps-bind Consistent
                            (write_log db user.organization_id (
                              log_of env 0 user id "expense.receipt_attached"
                                (some (Metadata.receipt_attached object_key e.version))))
                            _ (write_log-Keeps user.organization_id _) (λ u'' s inv. inv))))))
