-- ===== src/Notifications.antt =====
-- Notifications in the app: apps/api/src/notifications.
pub mod Repository
pub mod Consumer
pub mod Service
pub mod Redelivery
pub mod Announced
pub mod Sample
mod Tests
