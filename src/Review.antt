-- ===== src/Review.antt =====
-- api/app/services/accounting_review.py: a person decides about a task of the reconciliation.
pub mod Types
pub mod Values
pub mod Decisions
pub mod Tables
pub mod Approve
pub mod Approved
pub mod Keyed
pub mod Replay
pub mod Again
pub mod Claimed
pub mod Owned
pub mod Refreshed
pub mod Claims
pub mod Refinement
pub mod Samples
mod Examples
