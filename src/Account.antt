-- ===== src/Account.antt =====
-- Accounts: signing in, sessions, password resets and the second factor (app/services/auth, app/auth).
pub mod Login
pub mod Reset
pub mod Mfa
pub mod Phone
