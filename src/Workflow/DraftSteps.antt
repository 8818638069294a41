-- ===== src/Workflow/DraftSteps.antt =====
-- `create` and `completeReceiptUpload` of expenses.service.ts as steps in the life of expenses.
use expenseflow.Common.{
  ℕ, ◌≡◌, refl, ap, sym, subst, Text, Bool-cases, inl, inr, any, Result, ok, err, none, some, not,
  ◌==◌, number_eq,
}
use expenseflow.Schema.{Expense, Store, Metadata}
use expenseflow.Database.{
  Client, IsClient, Env, pure, throw_if, commit_or_roll_back, Keeps-after, Keeps-commit,
}
use expenseflow.Audit.{write_log}
use expenseflow.Receipts.{S3Settings, assert_object_belongs_to_expense, to_storage_uri}
use expenseflow.Expenses.{
  AuthUser, CreateExpenseDto, lift, get_owned_draft_expense, same_expense_id, new_expense,
  is_own_draft, log_of, create, receipt_write, complete_receipt_upload,
}
use expenseflow.Expenses.Inversion.{receipt_write-Runs}
use expenseflow.Workflow.Requests.{write_log-Untouched}
use expenseflow.Workflow.Drafts.{receipt_write-err, find_owned_draft-reads, create_row}
use expenseflow.Workflow.Lifecycle.{Step, map_where-Step, receipt_row-IsMoved}
use expenseflow.Database.{after_read, throw_if-reads}

abbrev pub Steps : Store → Store → Type 0
Steps s t = Step s.expenses t.expenses

module _ (db : Client) (laws : IsClient db) where
  create_row-Steps :
      (env : Env) (user : AuthUser) (dto : CreateExpenseDto) (s : Store)
      → Steps s (create_row db laws (new_expense env user dto) s).1
  unfolding create_row new_expense
  create_row-Steps env user dto s =
      elim (Bool-cases (any (same_expense_id (new_expense env user dto)) s.expenses)) [
        | inl clash ↦ rw laws.create_lem (rw clash (Step.stay refl))
        | inr free ↦
            rw laws.create_lem (rw free (Step.add (new_expense env user dto) free refl refl refl))
      ]

  pub create-Steps :
      (env : Env) (user : AuthUser) (dto : CreateExpenseDto) (s : Store)
      → Steps s (create db env user dto s).1
  unfolding create create_row
  create-Steps env user dto s =
      let e = new_expense env user dto in
      let made = commit_or_roll_back s (create_row db laws e s) in
      let kept : Steps s made.1 =
        Keeps-commit (Steps s) (create_row db laws e s) s (Step.stay refl)
          (λ a ok_. create_row-Steps env user dto s) in
      Keeps-after (Steps s) made _ kept λ u q.
        Keeps-after (Steps s)
          (write_log db user.organization_id (log_of env 1 user e.id "expense.created" none) made.1)
          (λ u'. pure e)
          (subst (Step s.expenses)
            (sym
              (write_log-Untouched db user.organization_id
                (log_of env 1 user e.id "expense.created" none) made.1).0)
            kept)
          (λ u' q'.
            subst (Step s.expenses)
              (sym
                (write_log-Untouched db user.organization_id
                  (log_of env 1 user e.id "expense.created" none) made.1).0)
              kept)

  receipt_write-Steps :
      (user : AuthUser) (id : Text) (expected : ℕ) (uri : Text) (s : Store)
      → Steps s (receipt_write db user id expected uri s).1
  receipt_write-Steps user id expected uri s =
      by_outcome (receipt_write db user id expected uri s) refl
    where
      by_outcome :
          (r : Result Expense × Store) → receipt_write db user id expected uri s ≡ r → Steps s r.1
      by_outcome (ok updated, s') e =
          let (left, counted) = receipt_write-Runs db laws user id expected uri s s' updated e in
          subst (Step s.expenses) (sym (ap (λ y. y.expenses) left)) (
            map_where-Step (is_own_draft user id expected) _ s.expenses
              (receipt_row-IsMoved user id expected uri) counted)
      by_outcome (err x, s') e =
          Step.stay (ap (λ y. y.expenses) (receipt_write-err db laws user id expected uri s s' x e))

  pub complete_receipt_upload-Steps :
      (settings : S3Settings) (env : Env) (user : AuthUser) (id object_key : Text) (expected : ℕ)
      (s : Store)
      → Steps s (complete_receipt_upload db settings env user id object_key expected s).1
  unfolding complete_receipt_upload
  complete_receipt_upload-Steps settings env user id object_key expected s =
      after_read (Steps s) (get_owned_draft_expense db user id s) _ s
        (find_owned_draft-reads db laws user id s) unchanged
        λ current.
          after_read (Steps s) (throw_if (not (current.version == expected)) _ s) _ s
            (throw_if-reads (not (current.version == expected)) _ s) unchanged
            λ u.
              after_read (Steps s)
                (lift (assert_object_belongs_to_expense user.organization_id id object_key) s) _ s
                refl unchanged
                λ u'.
                  after_read (Steps s) (lift (to_storage_uri settings object_key) s) _ s refl
                    unchanged
                    λ uri.
                      let written = receipt_write db user id expected uri s in
                      let moved = receipt_write-Steps user id expected uri s in
                      Keeps-after (Steps s) written _ moved λ e q.
                        Keeps-after (Steps s) _ (λ u''. pure e) (logged written.1 e moved)
                          (λ u'' q'. logged written.1 e moved)
    where
      unchanged : Steps s s
      unchanged = Step.stay refl

      logged :
          (t : Store) (e : Expense)
          → Steps s t
          → Steps s
              (write_log db user.organization_id
                (log_of env 0 user id "expense.receipt_attached"
                  (some (Metadata.receipt_attached object_key e.version)))
                t).1
      logged t e moved =
          subst (Step s.expenses) (sym (write_log-Untouched db user.organization_id _ t).0) moved
