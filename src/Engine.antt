-- ===== src/Engine.antt =====
-- The column live-view engine (packages/column-live-view-engine/src).
pub mod Evaluation
pub mod Delta
pub mod Events
pub mod Journal
pub mod Health
pub mod Storage
pub mod Registry
pub mod Search
pub mod Heap
pub mod Scan
pub mod Ranges
pub mod Index
pub mod Spans
pub mod Grouped
pub mod Aggregates
