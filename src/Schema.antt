-- ===== src/Schema.antt =====
-- The enums and the tables of apps/api/prisma/schema.prisma, and the store that they make up with
-- the `notifications` queue. Ids, tokens and addresses are strings, and dates are milliseconds.
-- The columns `createdAt` and `updatedAt` that no modelled code reads are left out.
mod Enums
mod Rows
pub use Enums.*
pub use Rows.*
