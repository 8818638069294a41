-- ===== src/AuthController.antt =====
-- The handlers of apps/api/src/auth/auth.controller.ts: auth.service.ts and oidc.service.ts behind
-- cookies and redirects.
mod Cookies
mod Handlers
pub mod Headers
pub mod Opening
pub mod Callbacks
unfoldable pub use Cookies.*
unfoldable pub use Handlers.*
