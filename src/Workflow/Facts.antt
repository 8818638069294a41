-- ===== src/Workflow/Facts.antt =====
-- What the tests of rows mean, and what the changes of rows leave alone.
use expenseflow.Common.{
  ◌≡◌, ◌⊎◌, inl, inr, ℕ, Text, text_eq_iff, List, [], ◌∷◌, ◌++◌, true, false, arith, In, any,
  any-false, In-append, text_is_eq, sym, subst,
}
use mathlib.Core.List.{append_assoc, append-nil}
use expenseflow.Schema.{Expense, ExpenseStatus, Approval, level_eq}
use expenseflow.Expenses.{AuthUser, approval_clash, is_own_draft}
use expenseflow.Expenses.Inversion.{Added}
use expenseflow.Workflow.Consistent.{Unique}

pub is_own_draft-true :
    (user : AuthUser) (id : Text) (expected : ℕ) (e : Expense)
    → is_own_draft user id expected e ≡ true
    → (e.id ≡ id)
      × (e.status ≡ ExpenseStatus.draft)
      × (e.version ≡ expected)
      × (e.organization_id ≡ user.organization_id)
      × (e.user_id ≡ user.sub)
unfolding is_own_draft
is_own_draft-true user id expected e h = ground (
  arith,
  text_eq_iff e.id id,
  text_eq_iff e.organization_id user.organization_id,
  text_eq_iff e.user_id user.sub,
)

pub approval_clash_symm : (a b : Approval) → approval_clash a b ≡ true → approval_clash b a ≡ true
unfolding approval_clash
approval_clash_symm a b h = ground (
  arith,
  text_eq_iff a.id b.id,
  text_eq_iff b.id a.id,
  text_eq_iff a.expense_id b.expense_id,
  text_eq_iff b.expense_id a.expense_id,
)

pub approval_clash_of_id : (a b : Approval) → a.id ≡ b.id → approval_clash a b ≡ true
unfolding approval_clash
approval_clash_of_id a b h = ground (arith, text_eq_iff a.id b.id)

pub approval_clash_of_slot :
    (a b : Approval) → a.expense_id ≡ b.expense_id → a.level ≡ b.level → approval_clash a b ≡ true
unfolding approval_clash
approval_clash_of_slot a b h k = ground (arith, text_eq_iff a.expense_id b.expense_id)

add-Unique :
    (rows : List Approval) (row : Approval)
    → Unique rows
    → any (approval_clash row) rows ≡ false
    → Unique (rows ++ row ∷ [])
add-Unique rows row u free a b ma mb clash =
    by_origin ((In-append a rows (row ∷ [])).0 ma) ((In-append b rows (row ∷ [])).0 mb)
  where
    by_origin : (In a rows ⊎ In a (row ∷ [])) → (In b rows ⊎ In b (row ∷ [])) → a ≡ b
    by_origin (inl m) (inl n) = u a b m n clash
    by_origin (inl m) (inr (inl e)) = absurd (
        let back = approval_clash_symm a b clash in
        let none_of = any-false (approval_clash row) rows a free m in cc (rw e at back, none_of))
    by_origin (inr (inl e)) (inl n) =
        absurd (
          let none_of = any-false (approval_clash row) rows b free n in cc (rw e at clash, none_of))
    by_origin (inr (inl e)) (inr (inl e')) = cc
    by_origin (inr (inr k)) _ = absurd k
    by_origin _ (inr (inr k)) = absurd k

-- The keys stay unique when rows are created.
pub Added-Unique : (rows new : List Approval) → Unique rows → Added rows new → Unique (rows ++ new)
Added-Unique rows [] u added = subst Unique (sym (append-nil rows)) u
Added-Unique rows (row ∷ new) u (free, added) =
    subst Unique (append_assoc rows (row ∷ []) new)
      (Added-Unique (rows ++ row ∷ []) new (add-Unique rows row u free) added)
