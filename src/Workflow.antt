-- ===== src/Workflow.antt =====
-- The approval workflow as a whole: expenses.service.ts and approvals.service.ts over the tables
-- Expense and Approval, and the invariant of the two (`Consistent`).
mod Consistent
pub mod Facts
pub mod Submission
pub mod Moves
pub mod Seen
pub mod Decision
pub mod Deciding
pub mod Requests
pub mod Guards
pub mod Stale
pub mod Lifecycle
pub mod Drafts
pub mod Reachable
pub mod DraftSteps
pub mod Steps
pub mod Histories
pub mod Records
pub use Consistent.*
