-- ===== src/Money.antt =====
-- Amounts as texts: apps/web/lib/money.ts and apps/api/src/common/money/format-minor.util.ts.
pub mod Format
pub mod Parse
pub mod Grouping
pub mod RoundTrip
mod Tests
