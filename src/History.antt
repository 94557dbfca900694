-- ===== src/History.antt =====
-- api/app/services/accounting_history.py: the portfolio's value at a time in the past.
pub mod Types
pub mod Anchors
pub mod Rebuild
pub mod Resolve
pub mod Latest
pub mod Steps
pub mod Complete
mod Examples
