-- ===== src/Health.antt =====
-- Readiness, apps/api/src/health/health.service.ts, and the overview of
-- apps/api/src/operations/operations.service.ts. Whether a probe throws comes from outside.
use expenseflow.Common.{ℕ, Text, Bool, true, false, ◌&&◌}
use expenseflow.Metrics.{HttpMetrics}

pub data DependencyStatus : Type 0 where
  up down : DependencyStatus

pub record ReadinessResult : Type 0 where
  pub is_ready : Bool
  pub database : DependencyStatus
  pub redis : DependencyStatus

-- `checkDatabase` and `checkRedis`, for a probe that answers or throws.
unfoldable pub check_dependency : (answers : Bool) → DependencyStatus
check_dependency true = DependencyStatus.up
check_dependency false = DependencyStatus.down

abbrev pub is_up : DependencyStatus → Bool
is_up DependencyStatus.up = true
is_up DependencyStatus.down = false

unfoldable pub ready : (database_answers redis_answers : Bool) → ReadinessResult
ready database_answers redis_answers =
    let database = check_dependency database_answers in
    let redis = check_dependency redis_answers in
    record { is_ready = is_up database && is_up redis; database = database; redis = redis }

-- `getJobCounts` of the queue.
pub record JobCounts : Type 0 where
  pub waiting : ℕ
  pub active : ℕ
  pub delayed : ℕ
  pub completed : ℕ
  pub failed : ℕ

pub record Overview : Type 0 where
  pub generated_at : Text
  pub http : HttpMetrics
  pub notifications : JobCounts

unfoldable pub overview : (iso_now : Text) → HttpMetrics → JobCounts → Overview
overview iso_now metrics queue = record {
  generated_at = iso_now;
  http = metrics;
  notifications = queue;
}
