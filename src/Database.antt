-- ===== src/Database.antt =====
-- How the repositories call Prisma.
mod Calls
pub mod Keeps
unfoldable pub use Calls.*
