-- ===== src/Capital.antt =====
-- api/app/services/accounting_capital.py: the capital summary and the confidence in it.
pub mod Calendar
pub mod Types
pub mod Threshold
pub mod Impacts
pub mod Summary
pub mod Totals
pub mod Scopes
pub mod Gravity
pub mod Visibility
pub mod Sensitive
pub mod ReviewTask
pub mod Elapsed
mod Examples
