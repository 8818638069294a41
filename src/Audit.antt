-- ===== src/Audit.antt =====
-- The audit log, apps/api/src/audit/audit.service.ts.
use expenseflow.Common.{
  Text, String, List, Option, none, some, Bool, true, false, ◌==◌, ltb, ◌&&◌, take, ok, text_is_eq,
  internal, is_empty, text,
}
use expenseflow.Schema.{AuditLog}
use expenseflow.Database.{Client, Action, ◌>>=◌, pure, gets, or_throw, with_tenant}

abbrev pub same_log_id : AuditLog → AuditLog → Bool
same_log_id a b = a.id == b.id

abbrev pub set_audit_logs : List AuditLog → Action (Unit {0})
set_audit_logs rows s = (ok tt, record s { audit_logs = rows })

abbrev pub newest_log_first : AuditLog → AuditLog → Bool
newest_log_first a b = ltb b.created_at a.created_at

-- `...(entityType && { entityType })`: an absent or an empty filter is no filter.
abbrev pub selects_type : Option Text → String → Bool
selects_type none t = true
selects_type (some f) t = if_given (is_empty f)
  where
    if_given : Bool → Bool
    if_given true = true
    if_given false = f == text t

abbrev pub selects_entity : Option Text → Text → Bool
selects_entity none e = true
selects_entity (some f) e = if_given (is_empty f)
  where
    if_given : Bool → Bool
    if_given true = true
    if_given false = f == e

module _ (db : Client) where
  unfoldable pub write_log : Text → AuditLog → Action (Unit {0})
  write_log organization_id row = with_tenant organization_id do
    s ← gets (λ s. s)
    rows ← or_throw (db.create same_log_id row s.audit_logs) (internal "P2002")
    set_audit_logs rows

  unfoldable pub list_logs : Text → Option Text → Option Text → Action (List AuditLog)
  list_logs organization_id entity_type entity_id = with_tenant organization_id do
    s ← gets (λ s. s)
    pure (
        take 100 (
          db.find_many newest_log_first
            (λ row.
              row.organization_id == organization_id
              && selects_type entity_type row.entity_type
              && selects_entity entity_id row.entity_id)
            s.audit_logs))
