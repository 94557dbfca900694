-- ===== src/Performance.antt =====
-- api/app/services/accounting_performance.py: the investment gain of the last days.
pub mod Types
pub mod Boundary
pub mod Cashflows
pub mod Period
pub mod Gain
pub mod Totals
pub mod Tiling
pub mod Blocking
mod Examples
