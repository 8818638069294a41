-- ===== src/Tests/Counters.antt =====
-- The dashboard, the request counters and the traces.
use expenseflow.Common.{◌+◌, ◌≡◌, refl, ◌∷◌, [], ok, text, none, some}
use expenseflow.Schema.{Expense, TraceContext}
use expenseflow.Reports.{
  dashboard, dashboard_of, unsubmitted, dashboard-adds, dashboard_of-isolated,
}
use expenseflow.Traces.{create, to_traceparent, create-to_traceparent, IsHexId, all_zero}
use expenseflow.Tests.{store, draft, org, other_org}

dashboard-adds_example :
    let d = dashboard_of org store.expenses in
    let rest = unsubmitted org store.expenses in
    (dashboard org store ≡ (ok d, store))
    × (d.totals.count ≡ rest.count + (d.pending.count + (d.approved.count + d.rejected.count)))
    × (d.totals.amount_cents
        ≡ rest.amount_cents
          + (d.pending.amount_cents + (d.approved.amount_cents + d.rejected.amount_cents)))
dashboard-adds_example = dashboard-adds org store

abbrev foreign : Expense
foreign = record draft { organization_id = other_org }

dashboard_of-isolated_example :
    dashboard_of org (draft ∷ foreign ∷ []) ≡ dashboard_of org (draft ∷ [])
dashboard_of-isolated_example =
    dashboard_of-isolated org foreign (draft ∷ []) [] (λ e. absurd (cc (e)))

abbrev context : TraceContext
context = record {
  request_id = 1 ∷ [];
  trace_id = text "4bf92f3577b34da6a3ce929d0e0e4736";
  span_id = text "00f067aa0ba902b7";
  parent_span_id = none;
}

trace-IsHexId : IsHexId 32 context.trace_id
unfolding text all_zero
trace-IsHexId = (refl, refl, refl)

span-IsHexId : IsHexId 16 context.span_id
unfolding text all_zero
span-IsHexId = (refl, refl, refl)

create-to_traceparent_example :
    let child = create (λ t. t) (2 ∷ []) (3 ∷ []) (4 ∷ []) none (some (to_traceparent context)) in
    (child.trace_id ≡ context.trace_id) × (child.parent_span_id ≡ some context.span_id)
create-to_traceparent_example =
    create-to_traceparent (λ t. t) (2 ∷ []) (3 ∷ []) (4 ∷ []) none context refl trace-IsHexId
      span-IsHexId
