-- ===== src/Approvals.antt =====
-- Decisions on expenses, apps/api/src/approvals/approvals.service.ts.
mod Rows
mod Service
pub mod Inversion
unfoldable pub use Rows.*
unfoldable pub use Service.*
