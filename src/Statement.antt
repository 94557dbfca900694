-- ===== src/Statement.antt =====
-- api/app/services/xtb_statement_reconciliation.py: what a statement of the broker says of the current
-- value.
pub mod Types
pub mod Reconcile
pub mod Trusted
mod Examples
