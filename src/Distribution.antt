-- ===== src/Distribution.antt =====
-- api/app/services/accounting_distribution.py: the portfolio's value by type of asset.
pub mod Types
pub mod Classes
pub mod Tally
pub mod Summary
pub mod Totals
pub mod Visible
mod Examples
