-- ===== src/Lib.antt =====
-- evald: the storage engine of an evaluation and tracing daemon, and the data it stores.
--
-- A span that is ingested is appended to a write-ahead log and kept in a hot tier in memory; a
-- compactor writes whole log segments to columnar blocks (the cold tier) and drops them from the
-- hot tier and the log. Reads merge both tiers and drop second copies by identity.
--
-- Which file models what:
-- Model (src/model.rs): `NormalizedSpan`, `Score` and their questions; `Model.Json` is the part of
--   `serde_json::Value` that they look into. Integers are natural numbers, strings are lists of bytes,
--   and an f64 is its bit pattern where it is only stored.
-- Key (src/store/mod.rs, `SpanKey`, `key_of`, `decode_hex`): the identity of a span.
-- Rows (src/store/mod.rs, `Rows`, `TopN`, `Loser`): bounded selection. A `BinaryHeap` is its content
--   in ascending order.
-- Hot (src/store/mod.rs, `HotTier`): resident spans by log segment, in a map in ascending order.
-- Query (src/store/mod.rs, `Store::query`, `trace`, `hot_spans`): the union of both tiers. The blocks may be
--   merged away between listing and reading, so each attempt has its own view of the index and the
--   files. The retry loop runs on fuel 2, and its theorem shows that this is enough.
-- Wal (src/store/wal.rs): frames, segments, appending and recovery. serde_json and crc32fast are the
--   record `Codec`; how a write ends is an argument. The reader of frames runs on fuel, one more
--   than the number of bytes, which is enough for any bytes.
-- Index (src/store/index.rs): the durable tables of the cold tier. redb is the record `Redb` of
--   operations and documented laws; `Index.Memory` is an instance.
-- Writer (src/store/mod.rs, `writer_loop`): one round of the task that appends to the log. `Ends` says
--   how each write, the sync and each rotation end; an answer is paired with the number of its command.
-- Flush (src/store/mod.rs, `flush_pending`, `flush_one`; src/store/cold.rs, `write_block`): a segment
--   becomes blocks. `Faults` says how each write, the commit and the removal of the log segment end, so
--   a crash between two steps is a fault of the later one with the memory lost. chrono is `Chrono`.
-- Provenance (src/store/cold.rs, `Provenance`, `stem_range`): what the footer and the name of a block say.
-- Merge (src/store/merge.rs; `merge_now` of src/store/mod.rs): many small blocks become few large ones.
--   `Merge.Plan` has the candidates, tiers and chunks, `Merge.Inputs` and `Merge.Pass` the merge of a
--   chunk, `Merge.Cold` the pass and the sweep. `MergeFaults` says how each call of the file system and the
--   index ends. `ilog2` runs on 64 rounds, one for each bit. `Merge.Along` states a condition on every
--   merge of a pass.
-- Compactor (src/store/mod.rs, `spawn_compactor`): ticks that flush, merge and sweep.
-- Recover (src/store/mod.rs, `Store::open`, `sweep_orphans`): what a restart makes of the disk.
-- Retention (src/store/mod.rs, `reclaim_before_in`): dropping blocks below a cutoff. How the drop and
--   each removal end, and what is known of the sizes of files, are arguments.
-- Calls (src/calls.rs): the ledger by which the second description of a call is dropped before it is
--   appended.
-- Scores (src/store/scores.rs): the score store and its index by target. serde_json at `Score` is
--   `ScoreJson`.
-- Ingest (src/store/mod.rs, `ingest_batch`, `append`, `reject_if_disk_full`): the way of a batch to the
--   writer. What becomes of a command on the channel is an argument.
-- Price (src/price.rs): the lookup of a price by model id, on as many rounds as the id has bytes and
--   one more; `Price.Basis` reads and charges the token counts of a span, `Price.Derive` fills in its
--   cost. f64 is the record `Float` of the operations that are used.
-- Cost (src/cost.rs): the report that prices stored spans again. `Cost.Query` has what its SQL query
--   selects of a span: SQL's LIKE is defined, serde_json's text is a parameter. An i64 is its 64-bit
--   pattern.
-- Eval (src/eval.rs, `levenshtein`): the edit distance, on the characters of the texts.
-- Prelude: lists, maps, sets, bytes, results.
--
-- Not modelled: locks, the interleaving of the tasks on one state, the network, HTTP and gRPC handlers
-- and the mapping of their attributes, Parquet, redb, DataFusion and the rest of the SQL text, the parsing and
-- reloading of price tables, evaluators other than the edit distance, roll-up, judges and statistics
-- in f64, redaction and payload blobs (a parameter of Ingest), the command line, and the readers of
-- other tools' logs.
pub mod Prelude
pub mod Calls
pub mod Compactor
pub mod Cost
pub mod Eval
pub mod Flush
pub mod Hot
pub mod Index
pub mod Ingest
pub mod Key
pub mod Merge
pub mod Model
pub mod Price
pub mod Provenance
pub mod Query
pub mod Recover
pub mod Retention
pub mod Rows
pub mod Scores
pub mod Wal
pub mod Writer
