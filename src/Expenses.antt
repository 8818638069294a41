-- ===== src/Expenses.antt =====
-- Expenses, apps/api/src/expenses/expenses.service.ts. The methods stand in `Service`, the two
-- transactions that write in `Writes`, and lemmas on them in the other children.
pub mod Access
mod Writes
mod Rows
mod Service
pub mod Inversion
unfoldable pub use Writes.*
unfoldable pub use Rows.*
unfoldable pub use Service.*
