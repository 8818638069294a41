-- ===== src/Workflow/Histories.antt =====
-- Expenses over sequences of requests to expenses.service.ts and approvals.service.ts.
use expenseflow.Common.{
  ◌≡◌, ◌≤◌, refl, sym, ◌∙◌, subst, Text, List, [], ◌∷◌, true, arith, In, inl, inr, In-append, ◌⊎◌,
}
use expenseflow.Schema.{Expense, Store}
use expenseflow.Database.{Client, IsClient}
use expenseflow.Receipts.{S3Settings}
use expenseflow.Expenses.{is_decided}
use expenseflow.Workflow.Lifecycle.{Step, IsMoved, may_move}
use expenseflow.Workflow.Steps.{perform-Step}
use expenseflow.Workflow.Reachable.{perform, Reaches}

-- The same expense at a later time: its claim is as it was, its version has not gone down, and
-- once it was approved or rejected it is as it was.
pub record IsLater (e e' : Expense) : Type 0 where
  pub version : e.version ≤ e'.version
  pub final : is_decided e.status ≡ true → e' ≡ e
  pub kept : e' ≡ record e {
    status = e'.status;
    version = e'.version;
    receipt_url = e'.receipt_url;
    rejection_reason = e'.rejection_reason;
    submitted_at = e'.submitted_at;
    decided_at = e'.decided_at;
  }

IsLater-refl : (e : Expense) → IsLater e e
IsLater-refl e = record { version = omega arith; final = λ h. refl; kept = refl }

IsMoved-IsLater : (e e' : Expense) → IsMoved e e' → IsLater e e'
unfolding may_move
IsMoved-IsLater e e' moved = record {
  version = let v = moved.version in omega arith;
  final = λ h. let m = moved.status in absurd (ground arith);
  kept = moved.kept;
}

IsLater-trans : (d e f : Expense) → IsLater d e → IsLater e f → IsLater d f
IsLater-trans d e f h k = record {
  version = let v = h.version in let w = k.version in omega arith;
  final = λ q.
      let same = h.final q in k.final (subst (λ y. is_decided y.status ≡ true) (sym same) q) ∙ same;
  kept = let a = h.kept in let b = k.kept in ground arith;
}

Step-IsLater :
    (es es' : List Expense) (e : Expense)
    → Step es es'
    → In e es
    → (e' : Expense) × In e' es' × IsLater e e'
Step-IsLater es es' e (Step.stay q) m = (e, subst (In e) (sym q) m, IsLater-refl e)
Step-IsLater es es' e (Step.add new free is_draft v q) m =
    (e, subst (In e) (sym q) ((In-append e es (new ∷ [])).1 (inl m)), IsLater-refl e)
Step-IsLater es es' e (Step.move before d d' behind q q' moved) m =
    by_place ((In-append e before (d ∷ behind)).0 (subst (In e) q m))
  where
    place : (x : Expense) → (In x before ⊎ In x (d' ∷ behind)) → In x es'
    place x n = subst (In x) (sym q') ((In-append x before (d' ∷ behind)).1 n)

    by_place : (In e before ⊎ In e (d ∷ behind)) → (e' : Expense) × In e' es' × IsLater e e'
    by_place (inl n) = (e, place e (inl n), IsLater-refl e)
    by_place (inr (inl same)) = (
      d',
      place d' (inr (inl refl)),
      subst (λ y. IsLater y d') (sym same) (IsMoved-IsLater d d' moved),
    )
    by_place (inr (inr n)) = (e, place e (inr (inr n)), IsLater-refl e)

module _ (db : Client) (laws : IsClient db) (lower : Text → Text) (settings : S3Settings) where
  -- Through every sequence of those calls, an expense stays in the table with its claim (owner,
  -- organization, amount, merchant, category, dates) as it was, its version never goes down, and
  -- once it is approved or rejected it never changes again.
  pub Reaches-IsLater :
      (s t : Store) (e : Expense)
      → Reaches db lower settings s t
      → In e s.expenses
      → (e' : Expense) × In e' t.expenses × IsLater e e'
  Reaches-IsLater s t e Reaches.start m = (e, m, IsLater-refl e)
  Reaches-IsLater s _ e (Reaches.after t request before) m =
      let (d, n, later) = Reaches-IsLater s t e before m in
      let (f, k, later') =
        Step-IsLater t.expenses (perform db lower settings request t).expenses d
          (perform-Step db laws lower settings request t) n in
      (f, k, IsLater-trans e d f later later')
