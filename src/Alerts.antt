-- ===== src/Alerts.antt =====
-- Alerts and who is told of them (server/app/services/alert_engine.py, server/app/services/notifications.py and
-- server/app/services/user_notification_prefs.py).
pub mod Types
pub mod Session
pub mod Engine
pub mod Prefs
pub mod Told
pub mod Recipients
pub mod Delivery
pub mod OncePerDay
pub mod Controls
mod Tests
