-- ===== src/Auth.antt =====
-- Accounts and sessions: apps/api/src/auth.
pub mod Credentials
pub mod Accounts
pub mod Sessions
pub mod Service
pub mod Rotation
mod Tests
pub mod Once
pub mod Opening
pub mod Admission
pub mod LoggedOut
