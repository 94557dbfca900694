-- ===== src/CashLedger.antt =====
-- api/app/services/xtb_cash_ledger.py: the cash at XTB by its transactions, and whether it can be
-- trusted.
pub mod Types
pub mod Rows
pub mod Ledger
pub mod Balance
pub mod Trust
mod Examples
