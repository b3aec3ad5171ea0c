-- ===== src/Auth/Store.antt =====
-- modules/auth/auth.model.ts and auth.repository.ts, modules/mfa/mfa.model.ts and mfa.repository.ts, and
-- the columns of users that signing in reads. A hash is a number that is only compared; a new row's
-- uuid is the next number. An operation gives its result, or the error that it throws, beside the
-- database: it writes before it throws.
mod Rows
mod Users
mod Tokens
mod Challenges
pub use Rows.*
unfoldable pub use Users.*
unfoldable pub use Tokens.*
unfoldable pub use Challenges.*
