-- ===== src/Lib.antt =====
-- View server: live queries over in-memory topics, from the engine's evaluations to the rows that a
-- client shows.
--
-- The engine (packages/column-live-view-engine) keeps the rows of each topic, evaluates the live
-- queries on them and turns two successive evaluations of a query into a delta event. The client
-- (packages/client) applies the snapshot, delta and status events of a subscription to its state.
-- packages/config declares the events that go from one to the other.
--
-- - Shared and its children: names of the libraries, tests on numbers, lists over native numbers,
--   JavaScript's `splice` and `sort`, maps from keys to indexes, and arrays of rows and keys edited in
--   step.
-- - Protocol: the events of packages/config/src/live-protocol.ts. A number that comes off the wire is
--   a JsNumber, so that the tests for safe integers can fail.
-- - Client/Arrays, Client/State: `applyDeltaOperation`, `applyDelta`, `applySnapshot`, `applyStatus`
--   and `applyEvent` of packages/client/src/live-query-state.ts. Client/Entries says what the
--   operations mean on a list of entries, Client/Acceptance which deltas are accepted; Client/Edits,
--   Client/Refinement and Client/Invariant relate the code to them. Client/Consistent has the states
--   that events keep to, Client/Snapshot is about snapshots.
-- - Engine/Evaluation, Engine/Delta, Engine/Events: packages/column-live-view-engine/src/query-result.ts
--   (`deltaOperations` with its three paths, `snapshotEvent`, `deltaEvent`) and the cursor of
--   packages/column-live-view-engine/src/active-materialized-query.ts.
-- - Engine/Journal: packages/column-live-view-engine/src/topic-row-change-journal.ts, with
--   `advanceVersion` and `clear` of topic-row-storage.ts as far as the journal sees them.
-- - Engine/Health: packages/column-live-view-engine/src/topic-health-ledger.ts.
-- - Engine/Storage: the slots and the key map of
--   packages/column-live-view-engine/src/topic-row-storage.ts.
-- - Engine/Registry: the shared executions of
--   packages/column-live-view-engine/src/active-materialized-query.ts and their counts.
-- - Engine/Search: the binary searches of packages/column-live-view-engine/src/topic-ordered-window.ts.
-- - Engine/Heap: the bounded heap of packages/column-live-view-engine/src/topic-raw-window-scanner.ts;
--   Heap/Order has its order, Heap/Retain and Heap/Bounded what sifting does, Heap/Front the whole.
-- - Engine/Scan: `scanTopicRawWindow` of the same file with its strategies; Scan/Windows is about the
--   bounded sorted window, Scan/Strategies and Scan/Topic about the choice among them.
-- - Engine/Ranges: the range bounds and equality values of the ordered field, of
--   packages/column-live-view-engine/src/topic-ordered-window.ts; Ranges/Bounds, Ranges/Failure,
--   Ranges/Common and Ranges/Equality are about the bounds, when there are none, the intersection and
--   the values to seek.
-- - Engine/Index: the slots of an ordered index,
--   packages/column-live-view-engine/src/topic-raw-ordered-window-index.ts, under insertions and
--   removals.
-- - Engine/Spans: the span of an ordered index that range bounds select, of the same file.
-- - Engine/Grouped: the window of groups,
--   packages/column-live-view-engine/src/grouped-window-evaluation.ts. The buffer that
--   `retainBoundedGroup` passes on for the next group's order values is not part of the state.
-- - Engine/Aggregates: the state of an aggregate,
--   packages/column-live-view-engine/src/grouped-aggregate-state.ts; Aggregates/Members and
--   Aggregates/Sums say what a removal leaves, Aggregates/Extremes, Aggregates/Retained and
--   Aggregates/Dropped are about the minimum and the maximum. Aggregates/Batch has the states to
--   compute anew at the end of a batch
--   (packages/column-live-view-engine/src/grouped-incremental-execution.ts), Aggregates/Steps and
--   Aggregates/Run are about the changes of batches. A replacement that leaves the aggregate's value as
--   it was is no change there; a group that loses its last member loses its states, and starts again
--   with empty ones.
-- - Stream: both ends of a subscription together.
-- - Tests: the theorems at concrete inputs.
--
-- Keys and rows are any types; keys have decidable equality. `rowsEqual` (row-values.ts) and
-- `topicRowChangedFieldsFromRows` (row-scan.ts) are parameters; where the transitivity of `rowsEqual` is
-- needed, that is a hypothesis. A JavaScript `Map` from keys to indexes is a function into Option, other
-- maps are association lists, and a `Set` is a test on the list of its elements. Numbers that the engine
-- makes itself are natural numbers. The binary search and the sifting of a heap
-- run on fuel, the length of the range and the index or the length of the heap, which the theorems about
-- them show to be enough; every other loop is structural recursion.
--
-- Not modelled: the Effect library with its fibers, queues and schemas, the transports and servers,
-- and the React bindings. Of the evaluation of queries the scan, the ordered index and the groups are
-- modelled, but not the compilation of predicates nor the columns; the theorems on deltas and streams
-- take any sequence of evaluations.
pub mod Shared
pub mod Protocol
pub mod Client
pub mod Engine
pub mod Stream
pub mod Tests
