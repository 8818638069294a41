-- ===== src/Policies.antt =====
-- Approval policies, apps/api/src/policies/policies.service.ts. `lower` is `toLowerCase`.
pub mod Evaluation
use expenseflow.Common.{
  ℕ, ℤ, pos, leb_ℤ, Text, List, [], ◌∷◌, map, Option, none, some, Bool, true, false, ◌==◌, leb, ltb,
  ◌&&◌, ◌||◌, not, keep, any, is_empty, text_is_eq, ok, internal, if◌then◌else◌,
}
use expenseflow.Schema.{Policy, PolicyAction, Store, action_eq}
use expenseflow.Database.{Client, Env, Action, ◌>>=◌, ◌>>◌, pure, gets, or_throw, with_tenant}

pub record PolicyEvaluation : Type 0 where
  pub auto_reject : Bool
  pub require_manager : Bool
  pub require_finance : Bool
  pub matched_policy_ids : List Text

pub record CreatePolicyDto : Type 0 where
  pub name : Text
  pub category : Option Text
  pub min_amount_cents : Option ℕ
  pub max_amount_cents : Option ℕ
  pub action : PolicyAction
  pub priority : Option ℤ
  pub active : Option Bool

-- A field left out of a `create` gets the column's default.
abbrev pub or_default : {A : Type 0} → Option A → A → A
or_default none d = d
or_default (some a) d = a

abbrev pub by_priority : Policy → Policy → Bool
by_priority a b = leb_ℤ a.priority b.priority && not (leb_ℤ b.priority a.priority)

abbrev pub by_priority_then_age : Policy → Policy → Bool
by_priority_then_age a b = by_priority a b || not (by_priority b a) && ltb a.created_at b.created_at

abbrev pub same_policy_id : Policy → Policy → Bool
same_policy_id a b = a.id == b.id

abbrev pub set_policies : List Policy → Action (Unit {0})
set_policies rows s = (ok tt, record s { policies = rows })

abbrev pub is_active_in : Text → Policy → Bool
is_active_in organization_id policy = policy.organization_id == organization_id && policy.active

abbrev pub min_match : ℕ → Option ℕ → Bool
min_match amount none = true
min_match amount (some least) = leb least amount

abbrev pub max_match : ℕ → Option ℕ → Bool
max_match amount none = true
max_match amount (some most) = leb amount most

module _ (lower : Text → Text) where
  abbrev pub category_match : Text → Option Text → Bool
  category_match category none = true
  category_match category (some c) = is_empty c || lower c == lower category

  -- The test of `policies.filter`.
  unfoldable pub policy_matches : ℕ → Text → Policy → Bool
  policy_matches amount category policy =
      category_match category policy.category
      && min_match amount policy.min_amount_cents
      && max_match amount policy.max_amount_cents

  -- What `evaluate` returns for the policies that it has found.
  unfoldable pub summarize : ℕ → Text → List Policy → PolicyEvaluation
  summarize amount category policies =
      let matched = keep (policy_matches amount category) policies in
      record {
        auto_reject = any (λ policy. policy.action == PolicyAction.auto_reject) matched;
        require_manager = any (λ policy. policy.action == PolicyAction.require_manager) matched;
        require_finance = any (λ policy. policy.action == PolicyAction.require_finance) matched;
        matched_policy_ids = map (λ policy. policy.id) matched;
      }

module _ (db : Client) where
  unfoldable pub list : Text → Action (List Policy)
  list organization_id = with_tenant organization_id (
      gets λ s.
        db.find_many by_priority_then_age (λ row. row.organization_id == organization_id)
          s.policies)

  unfoldable pub create : Env → Text → CreatePolicyDto → Action Policy
  create env organization_id dto = with_tenant organization_id do
    s ← gets (λ s. s)
    let policy : Policy = record {
      id = env.drawn 0;
      organization_id = organization_id;
      name = dto.name;
      category = dto.category;
      min_amount_cents = dto.min_amount_cents;
      max_amount_cents = dto.max_amount_cents;
      action = dto.action;
      priority = or_default dto.priority (pos 100);
      active = or_default dto.active true;
      created_at = env.now;
    }
    rows ← or_throw (db.create same_policy_id policy s.policies) (internal "P2002")
    set_policies rows
    pure policy

  unfoldable pub remove : Text → Text → Action Policy
  remove organization_id id = with_tenant organization_id do
    s ← gets (λ s. s)
    policy ←
        or_throw
          (db.find_first (λ row. row.id == id && row.organization_id == organization_id) s.policies)
          (internal "P2025")
    set_policies (db.delete_many (λ row. row.id == policy.id) s.policies)
    pure policy

  unfoldable pub evaluate : (Text → Text) → Text → ℕ → Text → Action PolicyEvaluation
  evaluate lower organization_id amount category = do
    policies ←
        with_tenant organization_id
          (gets λ s. db.find_many by_priority (is_active_in organization_id) s.policies)
    pure (summarize lower amount category policies)
