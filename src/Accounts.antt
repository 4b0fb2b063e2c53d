-- ===== src/Accounts.antt =====
-- apps/authenticator/src/authenticator.service.ts: sign-in, one-time codes, passcodes and the
-- account's own data.
pub mod Rows
pub mod Requests
pub mod Profile
pub mod SignIn
pub mod Calls
pub mod Examples
mod Tests
