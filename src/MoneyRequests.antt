-- ===== src/MoneyRequests.antt =====
-- The lifecycle of money requests: apps/api/src/money-requests.
pub mod Repository
pub mod Rules
pub mod Service
pub mod Transitions
pub mod Lifecycle
pub mod Handlers
pub mod Accepting
pub mod Final
pub mod Creating
pub mod Tests
