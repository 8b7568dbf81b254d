-- ===== src/Platform.antt =====
-- What the program does not implement, as parameters: the Prisma client over the database, the
-- Redis client, cryptography, JWTs, mail, SMS, Slack, the object store, phone numbers and
-- WebAuthn. `Platform/Laws.antt` states the documented behaviour that some theorems assume.
mod Types
pub mod Laws
pub use Types.*
