-- ===== src/Reconcile.antt =====
-- api/app/services/accounting_reconciliation.py: matching withdrawals with deposits, the tasks for
-- what cannot be matched, their storage and their resolution.
pub mod Types
pub mod Matching
pub mod Records
pub mod Run
pub mod Dedupe
pub mod Matched
pub mod Links
pub mod Coverage
pub mod Resolve
pub mod Lifecycle
pub mod Persist
pub mod Persistence
mod ResolveExamples
mod Examples
