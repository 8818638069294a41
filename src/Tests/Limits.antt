-- ===== src/Tests/Limits.antt =====
-- Logins and other requests of two clients against the rate limits.
use expenseflow.Common.{◌≤◌, ℕ, refl, text, text_eq, List, [], ◌∷◌, none, some, arith}
use expenseflow.RateLimits.{
  Incoming, Limits, find_bucket, is_health_probe, is_sensitive_auth_request, scoped_key, path_of,
  ends_with,
}
use expenseflow.RateLimits.Windows.{passed_of, allowance, passed_of-allowance}

abbrev limits : Limits
limits = record {
  requests = none;
  window_ms = none;
  auth_requests = some 2;
  auth_window_ms = some 60;
}

abbrev login : Incoming
login = record { method = text "POST"; original_url = text "/auth/login"; client_key = 1 ∷ [] }

abbrev other : Incoming
other = record { method = text "GET"; original_url = text "/expenses"; client_key = 1 ∷ [] }

abbrev later : List (Incoming × ℕ)
later = (login, 110) ∷ (other, 115) ∷ (login, 120) ∷ (login, 130) ∷ []

passed_of-allowance_example :
    passed_of limits (scoped_key login) ((login, 100) ∷ later) []
    ≤ allowance limits (is_sensitive_auth_request login)
unfolding find_bucket is_health_probe is_sensitive_auth_request path_of ends_with text text_eq
passed_of-allowance_example =
    passed_of-allowance limits login 100 later [] refl refl
      (omega arith, (omega arith, (omega arith, (omega arith, tt))))
