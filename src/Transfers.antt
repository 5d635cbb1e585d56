-- ===== src/Transfers.antt =====
-- Direct transfers and the settlement of money requests: apps/api/src/transfers.
pub mod Repository
pub mod Settle
pub mod Service
pub mod Authorise
pub mod Moves
pub mod Annotations
pub mod Settled
pub mod Wallets
pub mod Money
pub mod Outcome
pub mod Direct
pub mod Payload
pub mod Once
pub mod Guarantees
pub mod Reading
pub mod Success
pub mod Movement
pub mod Notes
pub mod Returns
pub mod Tests
