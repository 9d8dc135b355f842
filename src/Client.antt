-- ===== src/Client.antt =====
-- The client's view of a live query (packages/client/src/live-query-state.ts): how snapshots,
-- deltas and status events change the rows that the client shows.
pub mod Arrays
pub mod Entries
pub mod Edits
pub mod Refinement
pub mod State
pub mod Acceptance
pub mod Consistent
pub mod Invariant
pub mod Snapshot
