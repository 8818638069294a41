-- ===== src/Oidc.antt =====
-- Login by OpenID Connect, apps/api/src/auth/oidc.service.ts. The provider's answers, and Node's
-- digests, encodings, JSON and URLs are parameters (`Provider`, `Node`).
mod Flow
mod Requests
mod Exchange
pub mod Facts
pub mod Cookies
pub mod Tokens
pub mod Verified
pub mod Completing
unfoldable pub use Flow.*
unfoldable pub use Requests.*
unfoldable pub use Exchange.*
