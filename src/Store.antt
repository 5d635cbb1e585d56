-- ===== src/Store.antt =====
-- The database that every service of apps/api works on: its rows, what a call can throw, and the
-- calls themselves as actions on the state.
pub mod Failure
pub mod Rows
pub mod Dto
pub mod Tx
pub mod Run
