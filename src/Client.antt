-- ===== src/Client.antt =====
-- The calls of the web client: apps/web/lib/api-client.ts.
pub mod Key
pub mod Request
pub mod Outcome
pub mod Feed
pub mod Whole
mod Tests
