-- ===== src/Tests.antt =====
-- Concrete runs, on which the theorems are applied.
mod Fixtures
pub mod Workflows
pub mod Logins
pub mod Keys
pub mod Conflicts
pub mod Access
pub mod Counters
pub mod Sso
pub mod Fingerprints
pub mod Mails
pub mod Calls
pub mod Routes
pub mod Histories
pub mod Forms
pub mod Limits
pub mod Browsers
unfoldable pub use Fixtures.*
