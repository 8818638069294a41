-- ===== src/RateLimits.antt =====
-- The rate limiter of apps/api/src/common/rate-limit: buckets by key, and the middleware that
-- consumes from them. Times are in milliseconds.
pub mod Buckets
pub mod Windows
use expenseflow.Common.{
  ℕ, suc, ◌+◌, ◌-◌, ◌*◌, ◌/◌, ◌≤◌, ◌<◌, ◌≡◌, ◌≢◌, refl, max, Text, text, text_is_eq, text_eq,
  number_eq, text_eq_iff, text_eq_refl, String, List, [], ◌∷◌, ◌++◌, Bool, true, false, not, ◌==◌,
  ◌&&◌, ◌||◌, leb, ltb, Option, none, some, keep, length, if◌then◌else◌, Result, ok, err, too_many,
  arith, Bool-cases, inl, inr, sym,
}

pub record Bucket : Type 0 where
  pub key : Text
  pub count : ℕ
  pub reset_at : ℕ

pub record Decision : Type 0 where
  pub allowed : Bool
  pub limit : ℕ
  pub remaining : ℕ
  pub reset_at : ℕ

-- The `Map` of the service, by its entries in the order of insertion.
unfoldable pub find_bucket : Text → List Bucket → Option Bucket
find_bucket key [] = none
find_bucket key (b ∷ bs) = if b.key == key then some b else find_bucket key bs

-- `buckets.set(bucket.key, bucket)`
unfoldable pub set_bucket : Bucket → List Bucket → List Bucket
set_bucket bucket [] = bucket ∷ []
set_bucket bucket (b ∷ bs) = if b.key == bucket.key then bucket ∷ bs else b ∷ set_bucket bucket bs

unfoldable pub remove_expired : ℕ → List Bucket → List Bucket
remove_expired now buckets = keep (λ b. ltb now b.reset_at) buckets

-- The bucket that a request counts in: the one of its key, or a new one if it has run out.
unfoldable pub current_bucket : Text → ℕ → ℕ → Option Bucket → Bucket
current_bucket key window_ms now none = record { key = key; count = 0; reset_at = now + window_ms }
current_bucket key window_ms now (some b) =
    if leb b.reset_at now then record { key = key; count = 0; reset_at = now + window_ms } else b

abbrev pub max_buckets : ℕ
max_buckets = 5000

unfoldable pub counted : Text → ℕ → ℕ → List Bucket → Bucket
counted key window_ms now buckets =
    let bucket = current_bucket key window_ms now (find_bucket key buckets) in
    record { key = key; count = bucket.count + 1; reset_at = bucket.reset_at }

-- `Math.max(0, limit - count)` is the subtraction of ℕ.
unfoldable pub consume : Text → ℕ → ℕ → ℕ → List Bucket → Decision × List Bucket
consume key limit window_ms now buckets =
    let bucket = counted key window_ms now buckets in
    let stored = set_bucket bucket buckets in
    (
      record {
        allowed = leb bucket.count limit;
        limit = limit;
        remaining = limit - bucket.count;
        reset_at = bucket.reset_at;
      },
      if ltb max_buckets (length stored) then remove_expired now stored else stored,
    )

-- `positiveInteger`, for a setting that is a whole number (`some`) or is not one (`none`).
unfoldable pub positive_integer : Option ℕ → ℕ → ℕ
positive_integer none fallback = fallback
positive_integer (some n) fallback = if ltb 0 n then n else fallback

pub record Limits : Type 0 where
  pub requests : Option ℕ
  pub window_ms : Option ℕ
  pub auth_requests : Option ℕ
  pub auth_window_ms : Option ℕ

pub record LimitPolicy : Type 0 where
  pub limit : ℕ
  pub window_ms : ℕ

unfoldable pub general_policy : Limits → LimitPolicy
general_policy limits = record {
  limit = positive_integer limits.requests 300;
  window_ms = positive_integer limits.window_ms 60000;
}

unfoldable pub auth_policy : Limits → LimitPolicy
auth_policy limits = record {
  limit = positive_integer limits.auth_requests 10;
  window_ms = positive_integer limits.auth_window_ms (10 * 60000);
}

-- What the middleware reads of a request: `clientKey` is the address that Express gives.
pub record Incoming : Type 0 where
  pub method : Text
  pub original_url : Text
  pub client_key : Text

-- `url.split('?')[0]`
unfoldable pub path_of : Text → Text
path_of [] = []
path_of (c ∷ s) = let rest = path_of s in if c == b'?' then [] else c ∷ rest

-- `s.endsWith(suffix)`
unfoldable pub ends_with : Text → Text → Bool
ends_with [] suffix = text_eq [] suffix
ends_with (c ∷ s) suffix = let rest = ends_with s suffix in text_eq (c ∷ s) suffix || rest

unfoldable pub is_health_probe : Incoming → Bool
is_health_probe request =
    ends_with (path_of request.original_url) (text "/health/live")
    || ends_with (path_of request.original_url) (text "/health/ready")

unfoldable pub is_sensitive_auth_request : Incoming → Bool
is_sensitive_auth_request request =
    request.method == text "POST"
    && (ends_with (path_of request.original_url) (text "/auth/login")
        || ends_with (path_of request.original_url) (text "/auth/refresh"))

unfoldable pub scoped_key : Incoming → Text
scoped_key request =
    (if is_sensitive_auth_request request then text "auth:" else text "general:")
    ++ request.client_key

unfoldable pub policy_of : Limits → Incoming → LimitPolicy
policy_of limits request =
    if is_sensitive_auth_request request then auth_policy limits else general_policy limits

unfoldable pub ceil_seconds : ℕ → ℕ
ceil_seconds ms = (ms + 999) / 1000

pub record RateHeaders : Type 0 where
  pub limit : ℕ
  pub remaining : ℕ
  pub reset : ℕ
  pub retry_after : Option ℕ

-- `RateLimitMiddleware.use`: the headers that it sets, and `next()` or the exception.
unfoldable pub use_middleware :
    Limits → ℕ → Incoming → List Bucket → Result (Unit {0}) × Option RateHeaders × List Bucket
use_middleware limits now request buckets =
    if is_health_probe request
    then (ok tt, none, buckets)
    else let policy = policy_of limits request in
      let (decision, buckets') =
        consume (scoped_key request) policy.limit policy.window_ms now buckets in
      let headers : RateHeaders = record {
        limit = decision.limit;
        remaining = decision.remaining;
        reset = ceil_seconds decision.reset_at;
        retry_after =
            if decision.allowed
            then none
            else some (max 1 (ceil_seconds (decision.reset_at - now)));
      } in
      (
        if decision.allowed
            then ok tt
            else err (too_many "Too many requests. Please try again later."),
        some headers,
        buckets',
      )
