-- ===== src/Metrics.antt =====
-- Request counters, apps/api/src/common/observability/http-metrics.service.ts. Durations are whole
-- milliseconds here; the two ratios of `snapshot`, floating-point numbers, are left out.
use expenseflow.Common.{
  ℕ, suc, ◌+◌, ◌≡◌, arith, leb, eqb, List, [], ◌∷◌, if◌then◌else◌, length, count, number_eq,
}

pub record HttpMetrics : Type 0 where
  pub request_count : ℕ
  pub error_count : ℕ
  pub total_duration_ms : ℕ
  -- the `Map` of status codes, in the order of insertion
  pub status_codes : List (ℕ × ℕ)

abbrev pub no_requests : HttpMetrics
no_requests = record {
  request_count = 0;
  error_count = 0;
  total_duration_ms = 0;
  status_codes = [];
}

-- `statusCodes.set(code, (statusCodes.get(code) ?? 0) + 1)`
unfoldable pub count_status : ℕ → List (ℕ × ℕ) → List (ℕ × ℕ)
count_status code [] = (code, 1) ∷ []
count_status code ((c, n) ∷ rest) =
    let others = count_status code rest in if eqb c code then (c, suc n) ∷ rest else (c, n) ∷ others

unfoldable pub record_request : ℕ → ℕ → HttpMetrics → HttpMetrics
record_request status_code duration_ms metrics = record {
  request_count = metrics.request_count + 1;
  error_count = if leb 500 status_code then metrics.error_count + 1 else metrics.error_count;
  total_duration_ms = metrics.total_duration_ms + duration_ms;
  status_codes = count_status status_code metrics.status_codes;
}

-- `statusCodes.get(code) ?? 0`
unfoldable pub status_count : ℕ → List (ℕ × ℕ) → ℕ
status_count code [] = 0
status_count code ((c, n) ∷ rest) =
    let others = status_count code rest in if eqb c code then n else others

-- The counters after the requests `(status, duration)`, oldest first.
unfoldable pub after_requests : List (ℕ × ℕ) → HttpMetrics → HttpMetrics
after_requests [] metrics = metrics
after_requests ((status, duration) ∷ requests) metrics =
    after_requests requests (record_request status duration metrics)

status_count-count_status :
    (code k : ℕ) (codes : List (ℕ × ℕ))
    → status_count k (count_status code codes)
      ≡ (if eqb code k then status_count k codes + 1 else status_count k codes)
unfolding status_count count_status
status_count-count_status code k [] = ground arith
status_count-count_status code k ((c, n) ∷ rest) =
    ground (arith, status_count-count_status code k rest)

total-after_requests :
    (requests : List (ℕ × ℕ)) (m : HttpMetrics)
    → ((after_requests requests m).request_count ≡ m.request_count + length requests)
      × ((after_requests requests m).error_count
          ≡ m.error_count + count (λ (request : ℕ × ℕ). leb 500 request.0) requests)
unfolding after_requests record_request
total-after_requests [] m = (omega arith, omega arith)
total-after_requests ((status, duration) ∷ requests) m =
    let (total, errors) = total-after_requests requests (record_request status duration m) in
    (ground arith, ground arith)

status-after_requests :
    (requests : List (ℕ × ℕ)) (m : HttpMetrics) (k : ℕ)
    → status_count k (after_requests requests m).status_codes
      ≡ status_count k m.status_codes + count (λ (request : ℕ × ℕ). eqb request.0 k) requests
unfolding after_requests record_request
status-after_requests [] m k = omega arith
status-after_requests ((status, duration) ∷ requests) m k = ground (
  arith,
  status-after_requests requests (record_request status duration m) k,
  status_count-count_status status k m.status_codes,
)

-- After any sequence of requests recorded from the start, the counters are the number of
-- requests, the number with a status of at least 500, and for each status code the number of
-- requests with it.
after_requests_lem :
    (requests : List (ℕ × ℕ)) (k : ℕ)
    → let m = after_requests requests no_requests in
      (m.request_count ≡ length requests)
      × (m.error_count ≡ count (λ (request : ℕ × ℕ). leb 500 request.0) requests)
      × (status_count k m.status_codes ≡ count (λ (request : ℕ × ℕ). eqb request.0 k) requests)
unfolding status_count
after_requests_lem requests k =
    let (total, errors) = total-after_requests requests no_requests in
    let statuses = status-after_requests requests no_requests k in
    (omega arith, omega arith, omega arith)
