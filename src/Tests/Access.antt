-- ===== src/Tests/Access.antt =====
-- Reads of expenses, policies in force, permissions.
use expenseflow.Common.{◌≡◌, ◌↔◌, refl, text, text_eq, [], ◌∷◌, none, some, true, ok, In}
use expenseflow.Schema.{Role, Policy, PolicyAction}
use expenseflow.Database.{Runs, memory, memory-IsClient}
use expenseflow.Policies.{PolicyEvaluation, evaluate}
use expenseflow.Policies.Evaluation.{flag, IsInForce, evaluate_lem}
use expenseflow.Expenses.{ListExpensesQuery, get, list}
use expenseflow.Expenses.Access.{IsVisible, Listed, get-IsVisible, list-IsVisible}
use expenseflow.Permissions.{
  Permission, has_permission, web_has_permission, web_has_permission-has_permission,
}
use expenseflow.Tests.{store, draft, employee, expense_id, org, same_case}

gets_draft : Runs (get memory employee expense_id) store draft store
unfolding get text_eq
gets_draft = refl

get-IsVisible_example :
    (store ≡ store) × In draft store.expenses × (draft.id ≡ expense_id) × IsVisible employee draft
get-IsVisible_example =
    get-IsVisible memory memory-IsClient employee expense_id store store draft gets_draft

abbrev query : ListExpensesQuery
query = record { status = some (text "DRAFT"); category = none; page = 1; limit = 250 }

list-IsVisible_example :
    Listed same_case employee query store (list memory same_case employee query store)
list-IsVisible_example = list-IsVisible memory memory-IsClient same_case employee query store

evaluate_lem_example :
    (evaluation : PolicyEvaluation) × (evaluate memory same_case org 12050 (3 ∷ []) store
      ≡ (ok evaluation, store))
    × ((flag PolicyAction.require_finance evaluation ≡ true) ↔ (
        (policy : Policy) × IsInForce same_case org 12050 (3 ∷ []) store.policies policy
        × (policy.action ≡ PolicyAction.require_finance)))
evaluate_lem_example =
    evaluate_lem same_case org 12050 (3 ∷ []) memory memory-IsClient PolicyAction.require_finance
      store

web_has_permission-has_permission_example :
    web_has_permission Role.finance Permission.policy_manage
    ≡ has_permission Role.finance Permission.policy_manage
web_has_permission-has_permission_example =
    web_has_permission-has_permission Role.finance Permission.policy_manage
