-- ===== src/Workflow/Guards.antt =====
-- Submissions with a version that may not be the draft's, expenses.service.ts.
use expenseflow.Common.{
  ℕ, ◌≡◌, refl, sym, ap, ◌∙◌, subst, Text, text_is_eq, Option, false, In, inl, inr, Bool-cases, ok,
  err, Error, Result, arith, count-one, map_where, In-map_where,
}
use expenseflow.Schema.{Expense, Store, User}
use expenseflow.Database.{Client, IsClient, Env, Action, after, Runs, after-ok, commit-err}
use expenseflow.Policies.{PolicyEvaluation}
use expenseflow.Expenses.{
  AuthUser, is_own_draft, submitted_row, resolve_submission_status, submit_write, submit,
  prepare_submission,
}
use expenseflow.Expenses.Inversion.{submit_write-Submitted}
use expenseflow.Workflow.Requests.{prepare_submission-reads, finish_submission-Untouched}

-- No draft of the caller's has this id and this version.
abbrev pub IsStale : AuthUser → Text → ℕ → Store → Type 0
IsStale user id expected s =
    (e : Expense) → In e s.expenses → is_own_draft user id expected e ≡ false

pub after-refused :
    {A B : Type 0} (r : Result A × Store) (f : A → Action B) (s : Store)
    → r.1 ≡ s
    → ((a : A) → (x : Error) × (f a s ≡ (err x, s)))
    → (x : Error) × (after r f ≡ (err x, s))
after-refused (ok a, t) f s same h =
    subst (λ y. (x : Error) × (f a y ≡ (err x, s))) (sym same) (h a)
after-refused (err y, t) f s same h = (y, ap (λ u. (err y, u)) same)

module _ (db : Client) (laws : IsClient db) where
  pub submit_write-err :
      (env : Env) (user : AuthUser) (id : Text) (expected : ℕ) (evaluation : PolicyEvaluation)
      (manager finance : Option User) (s s' : Store) (x : Error)
      → submit_write db env user id expected evaluation manager finance s ≡ (err x, s')
      → s' ≡ s
  unfolding submit_write
  submit_write-err env user id expected evaluation manager finance s s' x e = commit-err _ s s' x e

  submit_write-stale :
      (env : Env) (user : AuthUser) (id : Text) (expected : ℕ) (evaluation : PolicyEvaluation)
      (manager finance : Option User) (s : Store)
      → IsStale user id expected s
      → (e : Error) × (submit_write db env user id expected evaluation manager finance s
          ≡ (err e, s))
  submit_write-stale env user id expected evaluation manager finance s stale =
      by_outcome (submit_write db env user id expected evaluation manager finance s) refl
    where
      by_outcome :
          (r : Result Expense × Store)
          → submit_write db env user id expected evaluation manager finance s ≡ r
          → (e : Error) × (submit_write db env user id expected evaluation manager finance s
              ≡ (err e, s))
      by_outcome (ok updated, s') e =
          let done =
            submit_write-Submitted db laws env user id expected evaluation manager finance s s'
              updated e in
          let (draft, m, own) = count-one (is_own_draft user id expected) s.expenses done.counted in
          absurd (cc (own, stale draft m))
      by_outcome (err x, s') e = (
        x,
        e
            ∙ ap (λ t. (err x, t))
                (submit_write-err env user id expected evaluation manager finance s s' x e),
      )

  submitted_row-decided :
      (env : Env) (user : AuthUser) (id : Text) (expected : ℕ) (evaluation : PolicyEvaluation)
      (e : Expense)
      → is_own_draft user id expected
          (submitted_row env evaluation (resolve_submission_status evaluation) e)
        ≡ false
  unfolding is_own_draft submitted_row resolve_submission_status
  submitted_row-decided env user id expected evaluation e = ground arith

  -- If no draft of the caller has the given id and version, `submit` is refused and leaves the
  -- store as it is.
  pub submit-stale :
      (lower : Text → Text) (env : Env) (user : AuthUser) (id : Text) (expected : ℕ) (s : Store)
      → IsStale user id expected s
      → (e : Error) × (submit db lower env user id expected s ≡ (err e, s))
  unfolding submit
  submit-stale lower env user id expected s stale =
      after-refused (prepare_submission db lower user id expected s) _ s
        (prepare_submission-reads db lower user id expected s)
        (λ plan.
          let (x, e) =
            submit_write-stale env user id expected plan.evaluation plan.manager plan.finance s
              stale in
          (x, rw e refl))

  submitted-IsStale :
      (lower : Text → Text) (env : Env) (user : AuthUser) (id : Text) (expected : ℕ) (s s' : Store)
      (updated : Expense)
      → Runs (submit db lower env user id expected) s updated s'
      → IsStale user id expected s'
  unfolding submit
  submitted-IsStale lower env user id expected s s' updated e row m =
      let (plan, t, r1, e1) =
        after-ok (prepare_submission db lower user id expected s) _ s' updated e in
      let (written, u, r2, e2) =
        after-ok (submit_write db env user id expected plan.evaluation plan.manager plan.finance t)
          _ s' updated e1 in
      let done =
        submit_write-Submitted db laws env user id expected plan.evaluation plan.manager
          plan.finance t u written r2 in
      let kept : s'.expenses ≡ u.expenses =
        ap (λ r. r.1.expenses) (sym e2)
        ∙ (finish_submission-Untouched db env user id plan written u).0 in
      let change = submitted_row env plan.evaluation (resolve_submission_status plan.evaluation) in
      let moved : In row (map_where (is_own_draft user id expected) change t.expenses) =
        subst (In row) (kept ∙ ap (λ y. y.expenses) done.store) m in
      let (a, n, from) = In-map_where (is_own_draft user id expected) change t.expenses row moved in
      elim (Bool-cases (is_own_draft user id expected a)) [
        | inl own ↦
            let changed : row ≡ change a = from ∙ rw own refl in
            rw changed (submitted_row-decided env user id expected plan.evaluation a)
        | inr other ↦ let unchanged : row ≡ a = from ∙ rw other refl in rw unchanged other
      ]

  -- On the store that a `submit` which ended well leaves, a `submit` of the same caller, expense
  -- and version is refused and changes nothing, at whatever time.
  pub submit-once :
      (lower : Text → Text) (env env' : Env) (user : AuthUser) (id : Text) (expected : ℕ)
      (s s' : Store) (updated : Expense)
      → Runs (submit db lower env user id expected) s updated s'
      → (e : Error) × (submit db lower env' user id expected s' ≡ (err e, s'))
  submit-once lower env env' user id expected s s' updated e =
      submit-stale lower env' user id expected s'
        (submitted-IsStale lower env user id expected s s' updated e)
