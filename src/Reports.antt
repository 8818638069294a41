-- ===== src/Reports.antt =====
-- The dashboard, apps/api/src/reports/reports.service.ts.
use expenseflow.Common.{
  ap, ◌++◌, ok, ◌≢◌, text_eq, text_eq_iff, ℕ, ◌+◌, ◌≡◌, refl, arith, Text, text_is_eq, Bool, false,
  ◌==◌, ◌&&◌, ◌||◌, ltb, List, [], ◌∷◌, if◌then◌else◌, count, keep, take, sort_by,
}
use expenseflow.Schema.{Expense, ExpenseStatus, Store, expense_status_eq}
use expenseflow.Database.{Action, gets, with_tenant}

-- `_count` and `_sum.amountCents ?? 0` of the rows that a `where` selects.
pub record Total : Type 0 where
  pub count : ℕ
  pub amount_cents : ℕ

unfoldable pub amount_of : (Expense → Bool) → List Expense → ℕ
amount_of p [] = 0
amount_of p (e ∷ es) = let rest = amount_of p es in if p e then e.amount_cents + rest else rest

unfoldable pub aggregate : (Expense → Bool) → List Expense → Total
aggregate p rows = record { count = count p rows; amount_cents = amount_of p rows }

pub record CategoryTotal : Type 0 where
  pub category : Text
  pub count : ℕ
  pub amount_cents : ℕ

-- Adds an expense to the total of its category.
unfoldable pub add_category : Expense → List CategoryTotal → List CategoryTotal
add_category e [] = record { category = e.category; count = 1; amount_cents = e.amount_cents } ∷ []
add_category e (c ∷ cs) =
    let others = add_category e cs in
    if c.category == e.category
    then record {
      category = c.category;
      count = c.count + 1;
      amount_cents = c.amount_cents + e.amount_cents;
    }
      ∷ cs
    else c ∷ others

-- `groupBy` on the category.
unfoldable pub group_by_category : List Expense → List CategoryTotal
group_by_category [] = []
group_by_category (e ∷ es) = add_category e (group_by_category es)

abbrev pub by_amount_desc : CategoryTotal → CategoryTotal → Bool
by_amount_desc a b = ltb b.amount_cents a.amount_cents

abbrev pub is_pending_status : ExpenseStatus → Bool
is_pending_status status =
    status == ExpenseStatus.pending_manager || status == ExpenseStatus.pending_finance

pub record Dashboard : Type 0 where
  pub totals : Total
  pub pending : Total
  pub approved : Total
  pub rejected : Total
  pub by_category : List CategoryTotal

-- The queries of `dashboard` over the rows of the table.
unfoldable pub dashboard_of : Text → List Expense → Dashboard
dashboard_of organization_id rows = record {
  totals = aggregate (λ row. row.organization_id == organization_id) rows;
  pending =
      aggregate (λ row. row.organization_id == organization_id && is_pending_status row.status)
        rows;
  approved =
      aggregate
        (λ row. row.organization_id == organization_id && row.status == ExpenseStatus.approved)
        rows;
  rejected =
      aggregate
        (λ row. row.organization_id == organization_id && row.status == ExpenseStatus.rejected)
        rows;
  by_category = take 8 (
      sort_by by_amount_desc
        (group_by_category (keep (λ row. row.organization_id == organization_id) rows)));
}

unfoldable pub dashboard : Text → Action Dashboard
dashboard organization_id =
    with_tenant organization_id (gets λ s. dashboard_of organization_id s.expenses)

-- The total of what the report does not list: drafts, and expenses that are `SUBMITTED`.
unfoldable pub unsubmitted : Text → List Expense → Total
unsubmitted organization_id rows =
    aggregate
      (λ row.
        row.organization_id == organization_id
        && (row.status == ExpenseStatus.draft || row.status == ExpenseStatus.submitted))
      rows

module _ (organization_id : Text) where
  counts-add :
      (rows : List Expense)
      → let d = dashboard_of organization_id rows in
        d.totals.count
        ≡ (unsubmitted organization_id rows).count
          + (d.pending.count + (d.approved.count + d.rejected.count))
  unfolding dashboard_of unsubmitted aggregate
  counts-add [] = refl
  counts-add (e ∷ es) = ground (arith, counts-add es)

  amounts-add :
      (rows : List Expense)
      → let d = dashboard_of organization_id rows in
        d.totals.amount_cents
        ≡ (unsubmitted organization_id rows).amount_cents
          + (d.pending.amount_cents + (d.approved.amount_cents + d.rejected.amount_cents))
  unfolding dashboard_of unsubmitted aggregate amount_of
  amounts-add [] = refl
  amounts-add (e ∷ es) = ground (arith, amounts-add es)

-- `dashboard` changes nothing, and its total number and total amount are the sums over the
-- pending, the approved, the rejected and the not yet submitted expenses of the organization.
pub dashboard-adds :
    (organization_id : Text) (s : Store)
    → let d = dashboard_of organization_id s.expenses in
      let rest = unsubmitted organization_id s.expenses in
      (dashboard organization_id s ≡ (ok d, s))
      × (d.totals.count ≡ rest.count + (d.pending.count + (d.approved.count + d.rejected.count)))
      × (d.totals.amount_cents
          ≡ rest.amount_cents
            + (d.pending.amount_cents + (d.approved.amount_cents + d.rejected.amount_cents)))
unfolding dashboard
dashboard-adds organization_id s =
    (refl, counts-add organization_id s.expenses, amounts-add organization_id s.expenses)

aggregate-skip :
    (p : Expense → Bool) (row : Expense) (before after : List Expense)
    → p row ≡ false
    → aggregate p (before ++ row ∷ after) ≡ aggregate p (before ++ after)
unfolding aggregate amount_of
aggregate-skip p row [] after h = rw h refl
aggregate-skip p row (b ∷ before) after h =
    let counts = ap (λ t. t.count) (aggregate-skip p row before after h) in
    let amounts = ap (λ t. t.amount_cents) (aggregate-skip p row before after h) in
    rw (counts, amounts) refl

keep-skip :
    (p : Expense → Bool) (row : Expense) (before after : List Expense)
    → p row ≡ false
    → keep p (before ++ row ∷ after) ≡ keep p (before ++ after)
keep-skip p row [] after h = rw h refl
keep-skip p row (b ∷ before) after h = rw (keep-skip p row before after h) refl

-- A row of another organization, wherever it stands in the table, changes nothing in an
-- organization's report.
pub dashboard_of-isolated :
    (organization_id : Text) (row : Expense) (before after : List Expense)
    → row.organization_id ≢ organization_id
    → dashboard_of organization_id (before ++ row ∷ after)
      ≡ dashboard_of organization_id (before ++ after)
unfolding dashboard_of
dashboard_of-isolated organization_id row before after other =
    let apart : text_eq row.organization_id organization_id ≡ false =
      ground (arith, text_eq_iff row.organization_id organization_id) in
    let mine : Expense → Bool = λ e. e.organization_id == organization_id in
    rw
      (
        aggregate-skip mine row before after apart,
        aggregate-skip (λ e. mine e && is_pending_status e.status) row before after (rw apart refl),
        aggregate-skip (λ e. mine e && e.status == ExpenseStatus.approved) row before after
            (rw apart refl),
        aggregate-skip (λ e. mine e && e.status == ExpenseStatus.rejected) row before after
            (rw apart refl),
        keep-skip mine row before after apart,
      )
      refl
