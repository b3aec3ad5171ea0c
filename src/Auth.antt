-- ===== src/Auth.antt =====
-- modules/auth and modules/mfa: signing in, staying signed in, and the ways out.
pub mod Store
pub mod Mfa
pub mod Sessions
pub mod Login
pub mod Passwords
pub mod Fixtures
mod Tests
