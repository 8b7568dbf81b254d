-- ===== src/Exec.antt =====
-- A request handler: state and exceptions. The state comes back beside an exception too, since
-- what was written to the database or the cache before a `throw` stays written.
-- `Exception` lists what the handlers throw: the HTTP exceptions of NestJS that the sources
-- construct (with their message, "" where they give none), the two OAuth exceptions
-- (src/oauth/exceptions) and the errors of libraries that no handler catches.
mod Laws
pub mod Keeps
pub use Laws.*
mod Monad
unfoldable pub use Monad.*
