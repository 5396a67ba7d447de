-- ===== src/Retention.antt =====
-- Retention, `reclaim_before_in` of src/store/mod.rs: the blocks whose newest span is older than the cutoff
-- are dropped from the index and removed. The removal of directories that are left empty is not
-- modelled, and neither is the compaction lock, which the sequence of the calls stands for.
pub mod Selected
pub mod Kept
pub mod Examples
use evald.Prelude.{
  ℕ, ◌+◌, ◌^◌, ◌-◌, ◌≡◌, Bool, true, false, ◌&&◌, ◌||◌, not, Option, none, some, List, [], ◌∷◌,
  ◌++◌, Text, text_eq, length, ltb, if◌then◌else◌,
}
use evald.Prelude.Io.{ErrorKind, Result, Outcome, ok, err}
use evald.Prelude.Maps.{Map, delete}
use evald.Index.{Redb, Index, blocks_with_max_start, drop_blocks}
use evald.Query.{is_not_found}
use evald.Flush.{Files}

pub record ReclaimReport : Type 0 where
  pub cutoff_unix_nano : ℕ
  pub blocks_dropped : ℕ
  pub bytes_reclaimed : ℕ
  pub blocks_kept : ℕ
  pub oldest_kept_unix_nano : Option ℕ
  pub dry_run : Bool

-- The locals of the loop over the blocks.
pub record Selection : Type 0 where
  pub drop_paths : List Text
  pub bytes_reclaimed : ℕ
  pub blocks_kept : ℕ
  pub oldest_kept : Option ℕ

-- `u64::saturating_add`
abbrev pub saturating_add : ℕ → ℕ → ℕ
saturating_add a b = if ltb (a + b) (2 ^ 64) then a + b else 2 ^ 64 - 1

-- The bytes of a file whose length could be read.
abbrev with_length : ℕ → Option ℕ → ℕ
with_length bytes none = bytes
with_length bytes (some size) = saturating_add bytes size

abbrev older : Option ℕ → ℕ → ℕ
older none n = n
older (some o) n = if ltb n o then n else o

-- `size rel` is the length of a file, if `fs::metadata` gives it.
abbrev pub select_one : (Text → Option ℕ) → ℕ → Selection → Text → ℕ → Selection
select_one size cutoff s rel max_start =
    if ltb max_start cutoff
    then record {
      drop_paths = s.drop_paths ++ rel ∷ [];
      bytes_reclaimed = with_length s.bytes_reclaimed (size rel);
      blocks_kept = s.blocks_kept;
      oldest_kept = s.oldest_kept;
    }
    else record {
      drop_paths = s.drop_paths;
      bytes_reclaimed = s.bytes_reclaimed;
      blocks_kept = s.blocks_kept + 1;
      oldest_kept = some (older s.oldest_kept max_start);
    }

unfoldable pub select_each : (Text → Option ℕ) → ℕ → Selection → List (Text × ℕ) → Selection
select_each size cutoff s [] = s
select_each size cutoff s ((rel, max_start) ∷ rest) =
    select_each size cutoff (select_one size cutoff s rel max_start) rest

abbrev pub removal : Option ErrorKind → Text → Files → Outcome × Files
removal none rel files = (ok tt, delete rel files)
removal (some kind) rel files = if is_not_found kind then (ok tt, files) else (err kind, files)

-- The loop that removes the files. `ends rel` is how the removal of a file ends.
unfoldable pub remove_files : (Text → Option ErrorKind) → List Text → Files → Outcome × Files
remove_files ends [] files = (ok tt, files)
remove_files ends (rel ∷ rest) files =
    let (r, files') = removal (ends rel) rel files in
    let later = remove_files ends rest files' in
    elim r [ err kind ↦ (err kind, files') | ok _ ↦ later ]

abbrev pub is_empty : List Text → Bool
is_empty [] = true
is_empty (p ∷ rest) = false

abbrev pub report_of : ℕ → Bool → Selection → ReclaimReport
report_of cutoff dry_run s = record {
  cutoff_unix_nano = cutoff;
  blocks_dropped = length s.drop_paths;
  bytes_reclaimed = s.bytes_reclaimed;
  blocks_kept = s.blocks_kept;
  oldest_kept_unix_nano = s.oldest_kept;
  dry_run = dry_run;
}

abbrev pub with_report : ReclaimReport → Outcome → Result ReclaimReport
with_report report (ok _) = ok report
with_report report (err kind) = err kind

module _ (redb : Redb) where
  abbrev pub start : Selection
  start = record { drop_paths = []; bytes_reclaimed = 0; blocks_kept = 0; oldest_kept = none }

  -- The blocks that are dropped, and what is counted on the way.
  unfoldable pub selection : (Text → Option ℕ) → ℕ → Index redb → Selection
  unfolding select_each
  selection size cutoff index = select_each size cutoff start (blocks_with_max_start redb index)

  -- The index first, then the files.
  abbrev pub remove_all :
      (Text → Option ErrorKind)
      → ReclaimReport
      → List Text
      → Files
      → Outcome × Index redb
      → Result ReclaimReport × Index redb × Files
  remove_all ends report paths files (err kind, index) = (err kind, index, files)
  remove_all ends report paths files (ok _, index) =
      let (r, files') = remove_files ends paths files in (with_report report r, index, files')

  unfoldable pub reclaim_before_in :
      (Text → Option ℕ)
      → Option ErrorKind
      → (Text → Option ErrorKind)
      → Index redb
      → Files
      → ℕ
      → Bool
      → Result ReclaimReport × Index redb × Files
  unfolding selection
  reclaim_before_in size drop_end ends index files cutoff dry_run =
      let s = selection size cutoff index in
      let report = report_of cutoff dry_run s in
      if dry_run || is_empty s.drop_paths
      then (ok report, index, files)
      else remove_all ends report s.drop_paths files (drop_blocks redb index s.drop_paths drop_end)
