-- ===== src/Workflow/Stale.antt =====
-- Decisions with a version that may not be the approval's, approvals.service.ts.
use expenseflow.Common.{ℕ, ◌≡◌, ap, refl, ◌∙◌, Text, false, In, ok, err, Error, Result, count-one}
use expenseflow.Schema.{Expense, Approval, Store}
use expenseflow.Database.{Client, IsClient, Env, with_tenant, commit-err}
use expenseflow.Expenses.{AuthUser}
use expenseflow.Approvals.{
  DecideApprovalDto, Pending, is_undecided, find_pending, check_pending, decide_write, decide,
}
use expenseflow.Approvals.Inversion.{decide_write-Decided}
use expenseflow.Workflow.Guards.{after-refused}
use expenseflow.Workflow.Deciding.{commit-reads, find_pending-reads, check_pending-reads}

-- No approval that waits for the caller has this id and this version.
abbrev pub IsDecided : AuthUser → Text → ℕ → Store → Type 0
IsDecided user id expected s =
    (a : Approval) → In a s.approvals → is_undecided user id expected a ≡ false

module _ (db : Client) (laws : IsClient db) where
  pub decide_write-err :
      (env : Env) (user : AuthUser) (id : Text) (dto : DecideApprovalDto) (seen : Pending)
      (s s' : Store) (x : Error)
      → decide_write db env user id dto seen s ≡ (err x, s')
      → s' ≡ s
  unfolding decide_write
  decide_write-err env user id dto seen s s' x e = commit-err _ s s' x e

  decide_write-stale :
      (env : Env) (user : AuthUser) (id : Text) (dto : DecideApprovalDto) (seen : Pending)
      (s : Store)
      → IsDecided user id dto.expected_version s
      → (x : Error) × (decide_write db env user id dto seen s ≡ (err x, s))
  decide_write-stale env user id dto seen s stale =
      by_outcome (decide_write db env user id dto seen s) refl
    where
      by_outcome :
          (r : Result Expense × Store)
          → decide_write db env user id dto seen s ≡ r
          → (x : Error) × (decide_write db env user id dto seen s ≡ (err x, s))
      by_outcome (ok result, s') e =
          let done = decide_write-Decided db laws env user id dto seen s s' result e in
          let (a, m, waits) =
            count-one (is_undecided user id dto.expected_version) s.approvals done.decided_one in
          absurd (cc (waits, stale a m))
      by_outcome (err x, s') e =
          (x, e ∙ ap (λ t. (err x, t)) (decide_write-err env user id dto seen s s' x e))

  -- If no approval that is pending for the caller has the given id and version, `decide` is
  -- refused and leaves the store as it is.
  pub decide-stale :
      (env : Env) (user : AuthUser) (id : Text) (dto : DecideApprovalDto) (s : Store)
      → IsDecided user id dto.expected_version s
      → (x : Error) × (decide db env user id dto s ≡ (err x, s))
  unfolding decide
  decide-stale env user id dto s stale =
      after-refused (with_tenant user.organization_id (find_pending db user id) s) _ s
        (commit-reads (find_pending db user id s) s (find_pending-reads db user id s))
        (λ seen.
          after-refused (check_pending db dto seen s) _ s (check_pending-reads db dto seen s)
            (λ u. let (x, e) = decide_write-stale env user id dto seen s stale in (x, rw e refl)))
