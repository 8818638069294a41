-- ===== src/Observability.antt =====
-- The trace and the counters around each request,
-- apps/api/src/common/observability/request-context.middleware.ts, less its log line.
use expenseflow.Common.{ℕ, ◌-◌, Text, Option}
use expenseflow.Schema.{TraceContext}
use expenseflow.Traces.{create, to_traceparent}
use expenseflow.Metrics.{HttpMetrics, record_request}

-- What `use` puts on the response, and the trace that the request runs under.
pub record Traced : Type 0 where
  pub trace : TraceContext
  pub request_id_header : Text
  pub traceparent_header : Text

unfoldable pub use_context :
    (Text → Text)
    → (uuid random_trace random_span : Text) → (x_request_id traceparent : Option Text) → Traced
use_context trim uuid random_trace random_span x_request_id traceparent =
    let trace = create trim uuid random_trace random_span x_request_id traceparent in
    record {
      trace = trace;
      request_id_header = trace.request_id;
      traceparent_header = to_traceparent trace;
    }

-- The event `finish`, by a clock that does not go back.
unfoldable pub finish_request : (started now status : ℕ) → HttpMetrics → HttpMetrics
finish_request started now status metrics = record_request status (now - started) metrics
