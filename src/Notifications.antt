-- ===== src/Notifications.antt =====
-- The notification queue, apps/api/src/notifications/notifications.service.ts, with the texts that
-- the messages are built of.
use expenseflow.Common.{
  ℕ, zero, suc, ◌+◌, ◌/◌, ◌%◌, Text, String, text, List, [], ◌∷◌, ◌++◌, Option, none, some, ltb,
  if◌then◌else◌, ok,
}
use expenseflow.Schema.{TraceContext, ExpenseStatus, ApprovalLevel}
use expenseflow.Database.{Env, Action}

-- `RequestContextService.child`: the same request and trace under a span of its own.
unfoldable pub child : Text → TraceContext → TraceContext
child span parent = record {
  request_id = parent.request_id;
  trace_id = parent.trace_id;
  span_id = span;
  parent_span_id = some parent.span_id;
}

unfoldable pub child_of : Text → Option TraceContext → Option TraceContext
child_of span none = none
child_of span (some parent) = some (child span parent)

-- `NotificationsService.enqueue`; the queue's own retry options are the queue's to follow.
unfoldable pub enqueue : Env → Text → String → Text → Text → Text → Action (Unit {0})
enqueue env span kind recipient subject message s = (
  ok tt,
  record s {
    jobs =
        s.jobs
        ++ record {
          kind = kind;
          recipient_email = recipient;
          subject = subject;
          message = message;
          trace = child_of span env.trace;
        }
          ∷ [];
  },
)

-- The decimal digits of a number, the last digit first; 20 digits are enough for any amount.
digits_from : ℕ → ℕ → List ℕ
digits_from zero n = []
digits_from (suc fuel) n =
    let rest = digits_from fuel (n / 10) in if ltb n 10 then (48 + n) ∷ [] else (48 + n % 10) ∷ rest

reverse_onto : Text → Text → Text
reverse_onto [] t = t
reverse_onto (c ∷ s) t = reverse_onto s (c ∷ t)

-- `(cents / 100).toFixed(2)`
unfoldable pub to_fixed_2 : ℕ → Text
unfolding digits_from reverse_onto
to_fixed_2 cents =
    reverse_onto (digits_from 20 (cents / 100)) []
    ++ b'.' ∷ (48 + cents / 10 % 10) ∷ (48 + cents % 10) ∷ []

-- The names of the enums as the messages spell them.
unfoldable pub status_name : ExpenseStatus → Text
status_name ExpenseStatus.draft = text "DRAFT"
status_name ExpenseStatus.submitted = text "SUBMITTED"
status_name ExpenseStatus.pending_manager = text "PENDING_MANAGER"
status_name ExpenseStatus.pending_finance = text "PENDING_FINANCE"
status_name ExpenseStatus.approved = text "APPROVED"
status_name ExpenseStatus.rejected = text "REJECTED"

unfoldable pub status_name_lower : ExpenseStatus → Text
status_name_lower ExpenseStatus.draft = text "draft"
status_name_lower ExpenseStatus.submitted = text "submitted"
status_name_lower ExpenseStatus.pending_manager = text "pending_manager"
status_name_lower ExpenseStatus.pending_finance = text "pending_finance"
status_name_lower ExpenseStatus.approved = text "approved"
status_name_lower ExpenseStatus.rejected = text "rejected"

unfoldable pub level_name_lower : ApprovalLevel → Text
level_name_lower ApprovalLevel.manager = text "manager"
level_name_lower ApprovalLevel.finance = text "finance"
