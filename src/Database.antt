-- ===== src/Database.antt =====
-- The database client, a package that the services call. `Client` is what they use of Prisma over
-- the rows of one table, `IsClient` what Prisma and PostgreSQL document of it, and `Memory` a
-- client over lists. `Actions` runs a request over the store.
mod Clients
mod Memory
mod Actions
mod Inversion
mod Keeping
pub use Clients.*
pub use Memory.*
unfoldable pub use Actions.*
pub use Inversion.*
pub use Keeping.*
