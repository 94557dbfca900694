-- ===== src/Alerts.antt =====
-- api/app/services/alerts.py: the alerts that current prices set off.
pub mod Evaluate
pub mod Fired
mod Examples
