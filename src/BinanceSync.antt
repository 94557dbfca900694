-- ===== src/BinanceSync.antt =====
-- api/app/services/binance_sync.py: fetching the history of an account in windows and pages.
pub mod Windows
pub mod Tiling
pub mod Json
pub mod Pages
pub mod Pagination
pub mod Unique
pub mod History
mod Examples
