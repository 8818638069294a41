-- ===== src/Schema/Rows.antt =====
-- The tables of apps/api/prisma/schema.prisma, a record for each model, and the jobs of the queue.
use expenseflow.Common.{ℕ, ℤ, Text, String, Option, List, Bool}
use expenseflow.Schema.Enums.{
  Role, ExpenseStatus, ApprovalStatus, ApprovalLevel, PolicyAction, IdempotencyStatus,
}

pub record Organization : Type 0 where
  pub id : Text
  pub name : Text
  pub slug : Text

pub record User : Type 0 where
  pub id : Text
  pub email : Text
  pub password_hash : Text
  pub first_name : Text
  pub last_name : Text
  pub role : Role
  pub department : Option Text
  pub manager_id : Option Text
  pub organization_id : Text
  pub created_at : ℕ

pub record Session : Type 0 where
  pub id : Text
  pub user_id : Text
  pub token_hash : Text
  pub expires_at : ℕ
  pub revoked_at : Option ℕ
  pub last_used_at : Option ℕ

pub record IdempotencyRecord : Type 0 where
  pub id : Text
  pub organization_id : Text
  pub actor_id : Text
  pub key : Text
  pub method : Text
  pub path : Text
  pub request_hash : Text
  pub status : IdempotencyStatus
  pub response_status : Option ℕ
  pub response_body : Option Text
  pub expires_at : ℕ

pub record Expense : Type 0 where
  pub id : Text
  pub organization_id : Text
  pub user_id : Text
  pub merchant : Text
  pub amount_cents : ℕ
  pub currency : Text
  pub category : Text
  pub description : Option Text
  pub receipt_url : Option Text
  pub incurred_at : ℕ
  pub status : ExpenseStatus
  pub rejection_reason : Option Text
  pub submitted_at : Option ℕ
  pub decided_at : Option ℕ
  pub version : ℕ
  pub created_at : ℕ

pub record Approval : Type 0 where
  pub id : Text
  pub expense_id : Text
  pub approver_id : Text
  pub level : ApprovalLevel
  pub status : ApprovalStatus
  pub comment : Option Text
  pub decided_at : Option ℕ
  pub version : ℕ
  pub created_at : ℕ

pub record Policy : Type 0 where
  pub id : Text
  pub organization_id : Text
  pub name : Text
  pub category : Option Text
  pub min_amount_cents : Option ℕ
  pub max_amount_cents : Option ℕ
  pub action : PolicyAction
  pub priority : ℤ
  pub active : Bool
  pub created_at : ℕ

-- The `metadata` objects that the services write, a constructor for each shape.
pub data Metadata : Type 0 where
  receipt_attached : (object_key : Text) (version : ℕ) → Metadata
  submitted : ExpenseStatus → (version : ℕ) → (matched_policy_ids : List Text) → Metadata
  decided :
      ApprovalLevel → (comment : Option Text) → (approval_version expense_version : ℕ) → Metadata

pub record AuditLog : Type 0 where
  pub id : Text
  pub organization_id : Text
  pub actor_id : Option Text
  pub entity_type : String
  pub entity_id : Text
  pub action : String
  pub metadata : Option Metadata
  pub created_at : ℕ

-- `TraceContext` of common/observability/request-context.ts.
pub record TraceContext : Type 0 where
  pub request_id : Text
  pub trace_id : Text
  pub span_id : Text
  pub parent_span_id : Option Text

-- `NotificationJob` of notifications/notifications.service.ts.
pub record NotificationJob : Type 0 where
  pub kind : String
  pub recipient_email : Text
  pub subject : Text
  pub message : Text
  pub trace : Option TraceContext

pub record Store : Type 0 where
  pub organizations : List Organization
  pub users : List User
  pub sessions : List Session
  pub idempotency_records : List IdempotencyRecord
  pub expenses : List Expense
  pub approvals : List Approval
  pub policies : List Policy
  pub audit_logs : List AuditLog
  pub jobs : List NotificationJob
