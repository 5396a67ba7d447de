-- ===== src/Flush.antt =====
-- `flush_pending` and `flush_one` of src/store/mod.rs, with `write_block` and `partition_of` of
-- src/store/cold.rs: one log segment becomes blocks of the cold tier. A block file is the spans it
-- was written from: the Parquet encoding is not modelled. chrono is a parameter, and how each call of the
-- file system and the index ends is an argument, `Faults`.
pub mod Groups
pub mod Written
pub mod Names
pub mod Cold
pub mod Ready
pub mod Keeps
pub mod Passes
pub mod Resident
pub mod Examples
use evald.Prelude.{
  ℕ, zero, suc, ◌+◌, ◌-◌, ◌*◌, ◌/◌, ◌%◌, Bool, true, false, ◌&&◌, not, Option, none, some, List, [],
  ◌∷◌, ◌++◌, map, Text, bytes, text_eq, nat_eq, keep, ltb, leb, length, insert, if◌then◌else◌,
}
use evald.Prelude.Io.{ErrorKind, Result, Outcome, ok, err}
use evald.Prelude.Maps.{Map, text_less, nat_less, get, put}
use evald.Prelude.Copies.{first_copies}
use evald.Prelude.Decimal.{decimal, padded}
use evald.Model.{NormalizedSpan}
use evald.Key.{SpanKey, span_key, key_eq}
use evald.Hot.{HotTier, segment, segnos, drop_segment, or_default}
use evald.Index.{Redb, BlockMeta, Index, watermark, commit_flush}
use evald.Wal.{Dir, delete_segment}

-- `DateTime::from_timestamp(secs, nanos)`, printed as `%Y/%m/%d/%H`; `none` if out of range.
pub record Chrono : Type 0 where
  pub hour_path : ℕ → ℕ → Option Text

abbrev or_epoch : Option Text → Text
or_epoch none = bytes "1970/01/01/00"
or_epoch (some path) = path

unfoldable pub partition_of : Chrono → ℕ → Text
partition_of chrono start_unix_nano =
    or_epoch (chrono.hour_path (start_unix_nano / 1000000000) (start_unix_nano % 1000000000))

abbrev pub Files : Type 0
Files = Map Text (List NormalizedSpan)

-- How the writing of a block ends: an error leaves the file unpublished or, after the rename,
-- published.
pub data Publish : Type 0 where
  published : Publish
  unpublished after_rename : ErrorKind → Publish

abbrev pub rel_path_of : Text → Text → Text
rel_path_of partition stem = bytes "blocks/" ++ partition ++ bytes "/" ++ stem ++ bytes ".parquet"

abbrev pub max_start : List NormalizedSpan → ℕ
max_start [] = 0
max_start (s ∷ rest) =
    let later = max_start rest in if ltb later s.start_unix_nano then s.start_unix_nano else later

-- The set of the trace ids of some spans.
abbrev pub trace_ids_of : List NormalizedSpan → List Text
trace_ids_of [] = []
trace_ids_of (s ∷ rest) = insert s.trace_id (trace_ids_of rest)

unfoldable pub block_meta : Text → List NormalizedSpan → BlockMeta
block_meta rel spans = record {
  rel_path = rel;
  max_start_unix_nano = max_start spans;
  trace_ids = trace_ids_of spans;
}

unfoldable pub write_block :
    Files → Text → Text → List NormalizedSpan → Publish → Result BlockMeta × Files
unfolding block_meta
write_block files partition stem spans (unpublished kind) = (err kind, files)
write_block files partition stem spans (after_rename kind) =
    (err kind, put (rel_path_of partition stem) spans files)
write_block files partition stem spans published =
    let rel = rel_path_of partition stem in (ok (block_meta rel spans), put rel spans files)

-- The loop that fills `by_partition`.
unfoldable pub by_partition :
    Chrono → Map Text (List NormalizedSpan) → List NormalizedSpan → Map Text (List NormalizedSpan)
by_partition chrono groups [] = groups
by_partition chrono groups (s ∷ rest) =
    let p = partition_of chrono s.start_unix_nano in
    by_partition chrono (put p (or_default (get p groups) ++ s ∷ []) groups) rest

-- The stem of the block number `idx` of a segment.
abbrev pub stem_of : ℕ → ℕ → Text
stem_of seqno idx = padded seqno ++ bytes "-" ++ decimal idx

-- `blocks.push(write_block(..)?)` and the rest of the loop.
abbrev pub join_blocks :
    Result BlockMeta → Files → Result (List BlockMeta) × Files → Result (List BlockMeta) × Files
join_blocks (err kind) files later = (err kind, files)
join_blocks (ok block) files (err kind, files') = (err kind, files')
join_blocks (ok block) files (ok blocks, files') = (ok (block ∷ blocks), files')

-- The loop over the groups; the first block that cannot be written ends it.
unfoldable pub write_blocks :
    Files → ℕ → ℕ → (ℕ → Publish) → Map Text (List NormalizedSpan) → Result (List BlockMeta) × Files
write_blocks files seqno idx publish [] = (ok [], files)
write_blocks files seqno idx publish ((partition, group) ∷ rest) =
    let done = write_block files partition (stem_of seqno idx) group (publish idx) in
    join_blocks done.0 done.1 (write_blocks done.1 seqno (suc idx) publish rest)

pub record Faults : Type 0 where
  pub publish : ℕ → Publish
  pub commit : Option ErrorKind
  pub delete : Option ErrorKind

module _ (redb : Redb) (chrono : Chrono) where
  -- What the compactor works on: the log directory, the index, the block files, the hot tier, and
  -- the number of the segment that is written to.
  pub record Shared : Type 0 where
    pub wal_dir : Dir
    pub index : Index redb
    pub files : Files
    pub hot : HotTier
    pub active_seqno : ℕ

  -- The removal of the log segment, and of the hot one behind it.
  abbrev pub truncate : Option ErrorKind → Shared → ℕ → Outcome × Shared
  truncate (some kind) st seqno = (err kind, st)
  truncate none st seqno = (
    ok tt,
    record {
      wal_dir = delete_segment st.wal_dir seqno;
      index = st.index;
      files = st.files;
      hot = drop_segment st.hot seqno;
      active_seqno = st.active_seqno;
    },
  )

  abbrev pub with_index : Shared → Index redb → Shared
  with_index st index = record {
    wal_dir = st.wal_dir;
    index = index;
    files = st.files;
    hot = st.hot;
    active_seqno = st.active_seqno;
  }

  abbrev pub with_files : Shared → Files → Shared
  with_files st files = record {
    wal_dir = st.wal_dir;
    index = st.index;
    files = files;
    hot = st.hot;
    active_seqno = st.active_seqno;
  }

  abbrev pub after_commit : Faults → ℕ → Shared → Outcome × Index redb → Outcome × Shared
  after_commit faults seqno st (err kind, index) = (err kind, with_index st index)
  after_commit faults seqno st (ok _, index) = truncate faults.delete (with_index st index) seqno

  abbrev pub after_blocks : Faults → ℕ → Shared → Result (List BlockMeta) × Files → Outcome × Shared
  after_blocks faults seqno st (err kind, files) = (err kind, with_files st files)
  after_blocks faults seqno st (ok blocks, files) =
      after_commit faults seqno (with_files st files)
        (commit_flush redb st.index seqno blocks faults.commit)

  abbrev pub flush_segment : Faults → ℕ → Shared → Option (List NormalizedSpan) → Outcome × Shared
  flush_segment faults seqno st none = (ok tt, st)
  flush_segment faults seqno st (some spans) = after_blocks faults seqno st (
      write_blocks st.files seqno 0 faults.publish
        (by_partition chrono [] (first_copies span_key [] spans)))

  unfoldable pub flush_one : Faults → Shared → ℕ → Outcome × Shared
  flush_one faults st seqno = flush_segment faults seqno st (segment st.hot seqno)

  -- The loop of `flush_pending`, over the numbers listed at its start.
  unfoldable pub flush_each : (ℕ → Faults) → Shared → List ℕ → Outcome × Shared
  unfolding flush_one
  flush_each faults st [] = (ok tt, st)
  flush_each faults st (seqno ∷ rest) =
      let (r, st') = flush_one (faults seqno) st seqno in
      let later = flush_each faults st' rest in elim r [ err kind ↦ (err kind, st') | ok _ ↦ later ]

  -- The sealed segments above the watermark.
  unfoldable pub pending : Shared → List ℕ
  pending st = keep (λ s. ltb (watermark redb st.index) s && ltb s st.active_seqno) (segnos st.hot)

  unfoldable pub flush_pending : (ℕ → Faults) → Shared → Outcome × Shared
  unfolding flush_each pending
  flush_pending faults st = flush_each faults st (pending st)
