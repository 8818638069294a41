-- ===== src/Receipts.antt =====
-- Receipts in S3, apps/api/src/expenses/receipt-storage.service.ts.
pub mod Storage
pub mod Uploads
mod Keys
mod Signing
unfoldable pub use Keys.*
unfoldable pub use Signing.*
