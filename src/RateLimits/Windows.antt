-- ===== src/RateLimits/Windows.antt =====
-- How many requests of a client the middleware of rate-limit.middleware.ts passes on.
use expenseflow.Common.{
  ℕ, zero, Result, ok, err, Bool, true, false, not, text, Option, suc, ◌+◌, ◌-◌, ◌≤◌, ◌<◌, ◌≡◌,
  ◌==◌, ◌++◌, ap, sym, refl, Text, text_is_eq, text_eq_iff, text_eq_refl, text_eq, List, [], ◌∷◌,
  none, some, if◌then◌else◌, arith, Bool-cases, inl, inr, All, subst, ◌&&◌,
}
use expenseflow.RateLimits.{
  Bucket, find_bucket, set_bucket, current_bucket, counted, consume, Incoming, Limits,
  use_middleware, is_health_probe, scoped_key, policy_of, auth_policy, general_policy,
  positive_integer, is_sensitive_auth_request,
}
use expenseflow.RateLimits.Buckets.{find-set_same, stored-stays, consume-others, consume-own}

abbrev pub EndsBefore : ℕ → List (Incoming × ℕ) → Type 0
EndsBefore end requests = All (λ (request : Incoming × ℕ). request.1 < end) requests

abbrev pub is_passed : Result (Unit {0}) → Bool
is_passed (ok u) = true
is_passed (err e) = false

-- Requests that count for a key: all of the key but the health probes.
abbrev pub counts_for : Text → Incoming → Bool
counts_for key request = not (is_health_probe request) && scoped_key request == key

-- How many of the requests of a key the middleware passes on, among those of all clients, each with
-- its time.
abbrev pub passed_of : Limits → Text → List (Incoming × ℕ) → List Bucket → ℕ
passed_of limits key [] buckets = 0
passed_of limits key ((request, now) ∷ requests) buckets =
    let (outcome, headers, buckets') = use_middleware limits now request buckets in
    let rest = passed_of limits key requests buckets' in
    if counts_for key request && is_passed outcome then suc rest else rest

-- A setting that is a positive number, or else the default.
abbrev pub setting_or : Option ℕ → ℕ → ℕ
setting_or none default = default
setting_or (some zero) default = default
setting_or (some (suc n)) default = suc n

-- What is allowed in a window, and its length, for logins and refreshes and for all else.
abbrev pub allowance : Limits → (is_auth : Bool) → ℕ
allowance limits true = setting_or limits.auth_requests 10
allowance limits false = setting_or limits.requests 300

abbrev pub window : Limits → (is_auth : Bool) → ℕ
window limits true = setting_or limits.auth_window_ms 600000
window limits false = setting_or limits.window_ms 60000

positive_integer-setting_or :
    (setting : Option ℕ) (fallback : ℕ)
    → positive_integer setting fallback ≡ setting_or setting fallback
unfolding positive_integer
positive_integer-setting_or none fallback = refl
positive_integer-setting_or (some zero) fallback = refl
positive_integer-setting_or (some (suc n)) fallback = ground arith

window_positive : (limits : Limits) (is_auth : Bool) → 0 < window limits is_auth
window_positive limits true = positive limits.auth_window_ms
  where
    positive : (setting : Option ℕ) → 0 < setting_or setting 600000
    positive none = omega arith
    positive (some zero) = omega arith
    positive (some (suc n)) = omega arith
window_positive limits false = positive limits.window_ms
  where
    positive : (setting : Option ℕ) → 0 < setting_or setting 60000
    positive none = omega arith
    positive (some zero) = omega arith
    positive (some (suc n)) = omega arith

policy_of-allowance :
    (limits : Limits) (request : Incoming)
    → (policy_of limits request).limit ≡ allowance limits (is_sensitive_auth_request request)
unfolding policy_of auth_policy general_policy
policy_of-allowance limits request = elim (Bool-cases (is_sensitive_auth_request request)) [
  | inl h ↦ rw h (positive_integer-setting_or limits.auth_requests 10)
  | inr h ↦ rw h (positive_integer-setting_or limits.requests 300)
]

policy_of-window :
    (limits : Limits) (request : Incoming)
    → (policy_of limits request).window_ms ≡ window limits (is_sensitive_auth_request request)
unfolding policy_of auth_policy general_policy
policy_of-window limits request = elim (Bool-cases (is_sensitive_auth_request request)) [
  | inl h ↦ rw h (positive_integer-setting_or limits.auth_window_ms 600000)
  | inr h ↦ rw h (positive_integer-setting_or limits.window_ms 60000)
]

abbrev head_or_zero : Text → ℕ
head_or_zero [] = 0
head_or_zero (c ∷ t) = c

prefixes_apart : (s t : Text) → text "auth:" ++ s ≡ text "general:" ++ t → ⊥
unfolding text
prefixes_apart s t e = let heads : 97 ≡ 103 = ap head_or_zero e in omega (arith, heads)

-- A key tells which of the two policies its requests are under.
scoped_key-policy_of :
    (limits : Limits) (a b : Incoming)
    → scoped_key a ≡ scoped_key b
    → policy_of limits a ≡ policy_of limits b
unfolding scoped_key policy_of
scoped_key-policy_of limits a b e = elim (Bool-cases (is_sensitive_auth_request a)) [
  | inl h ↦ elim (Bool-cases (is_sensitive_auth_request b)) [
    | inl k ↦ rw (h, k) refl
    | inr k ↦ absurd (prefixes_apart _ _ (rw (h, k) at e))
  ]
  | inr h ↦ elim (Bool-cases (is_sensitive_auth_request b)) [
    | inl k ↦ absurd (prefixes_apart _ _ (sym (rw (h, k) at e)))
    | inr k ↦ rw (h, k) refl
  ]
]

-- While a window runs, no more requests of its key are passed on than it has left.
passed_of-live :
    (limits : Limits) (first : Incoming) (b : Bucket) (requests : List (Incoming × ℕ))
    (buckets : List Bucket)
    → find_bucket (scoped_key first) buckets ≡ some b
    → EndsBefore b.reset_at requests
    → passed_of limits (scoped_key first) requests buckets
      ≤ (policy_of limits first).limit - b.count
unfolding use_middleware
passed_of-live limits first b [] buckets e h = omega arith
passed_of-live limits first b ((request, now) ∷ requests) buckets e (live, h) =
    let key = scoped_key first in
    let policy = policy_of limits request in
    let after = (consume (scoped_key request) policy.limit policy.window_ms now buckets).1 in
    elim (Bool-cases (is_health_probe request)) [
      | inl probe ↦ rw probe (passed_of-live limits first b requests buckets e h)
      | inr asks ↦ elim (Bool-cases (text_eq (scoped_key request) key)) [
        | inr other ↦
            let kept =
              consume-others (scoped_key request) key policy.limit policy.window_ms now b buckets
                (ground (arith, text_eq_iff (scoped_key request) key)) e live in
            rw (asks, other) (passed_of-live limits first b requests after kept h)
        | inl same ↦
            let key_is : scoped_key request ≡ key = (text_eq_iff (scoped_key request) key).0 same in
            let (stored, decided) =
              consume-own (scoped_key request) policy.limit policy.window_ms now b buckets
                (rw key_is e) live in
            let next : Bucket = record {
              key = scoped_key request;
              count = b.count + 1;
              reset_at = b.reset_at;
            } in
            let rest =
              passed_of-live limits first next requests after
                (subst (λ y. find_bucket y after ≡ some next) key_is stored) h in
            let bound : policy.limit ≡ (policy_of limits first).limit =
              ap (λ p. p.limit) (scoped_key-policy_of limits request first key_is) in
            rw (asks, same, decided) (ground arith)
      ]
    ]

-- After a first request, no health probe, whose client and kind have no bucket, the middleware
-- passes on no more requests of that client and kind than the setting allows before the window
-- ends: 10 logins and refreshes in ten minutes, or 300 others in one, if nothing else is set.
-- Requests of all clients and of both kinds may come in between.
pub passed_of-allowance :
    (limits : Limits) (first : Incoming) (start : ℕ) (requests : List (Incoming × ℕ))
    (buckets : List Bucket)
    → is_health_probe first ≡ false
    → find_bucket (scoped_key first) buckets ≡ none
    → EndsBefore (start + window limits (is_sensitive_auth_request first)) requests
    → passed_of limits (scoped_key first) ((first, start) ∷ requests) buckets
      ≤ allowance limits (is_sensitive_auth_request first)
unfolding use_middleware consume counted current_bucket
passed_of-allowance limits first start requests buckets asks fresh h =
    let key = scoped_key first in
    let length_of = policy_of-window limits first in
    let bucket : Bucket = record {
      key = key;
      count = 1;
      reset_at = start + window limits (is_sensitive_auth_request first);
    } in
    let positive = window_positive limits (is_sensitive_auth_request first) in
    let stored =
      stored-stays start key bucket (set_bucket bucket buckets) (find-set_same bucket buckets)
        (omega arith) in
    let rest = passed_of-live limits first bucket requests _ stored h in
    let allowed = policy_of-allowance limits first in
    rw (asks, fresh, text_eq_refl key, length_of) (ground arith)
