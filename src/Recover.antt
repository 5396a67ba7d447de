-- ===== src/Recover.antt =====
-- `Store::open` and `sweep_orphans` of src/store/mod.rs: what a restart makes of the log, the index and the
-- block files. Every file of the map is a `.parquet` file below `blocks/`; errors of the file system and `.tmp` files are not
-- modelled, and neither are the counters and the tasks that `open` starts.
pub mod Segments
pub mod Reopen
pub mod Commit
pub mod Crash
pub mod Examples
use evald.Prelude.{
  ℕ, ◌+◌, ◌≡◌, Bool, true, false, Option, none, some, List, [], ◌∷◌, Text, text_eq, nat_eq,
  contains, ltb, leb, if◌then◌else◌,
}
use evald.Prelude.Options.{◌>>=◌}
use evald.Prelude.Maps.{Map, keys}
use evald.Model.{NormalizedSpan}
use evald.Hot.{HotTier, hot_empty, load_segment}
use evald.Index.{Redb, Index, watermark, all_block_paths}
use evald.Wal.{Codec, Dir, list_segment_seqnos, delete_segment, read_segment, open_wal}
use evald.Flush.{Chrono, Files, Shared}

-- `sweep_orphans`
unfoldable pub sweep_orphans : List Text → Files → Files
sweep_orphans known [] = []
sweep_orphans known ((rel, spans) ∷ rest) =
    if contains known rel then (rel, spans) ∷ sweep_orphans known rest else sweep_orphans known rest

pub record Recovered : Type 0 where
  pub wal_dir : Dir
  pub hot : HotTier
  pub max_seqno : ℕ

abbrev pub max : ℕ → ℕ → ℕ
max a b = if ltb a b then b else a

-- A segment above the watermark that was read.
abbrev loaded : Recovered → ℕ → List NormalizedSpan × Dir → Recovered
loaded st seqno (spans, dir) = record {
  wal_dir = dir;
  hot = load_segment st.hot seqno spans;
  max_seqno = max st.max_seqno seqno;
}

-- The body of the loop over the segments of the log.
unfoldable pub recover_one : Codec → ℕ → Recovered → ℕ → Option Recovered
recover_one codec watermark st seqno =
    if leb seqno watermark
    then some (record {
      wal_dir = delete_segment st.wal_dir seqno;
      hot = st.hot;
      max_seqno = st.max_seqno;
    })
    else do read ← read_segment codec st.wal_dir seqno; some (loaded st seqno read)

unfoldable pub recover_each : Codec → ℕ → Recovered → List ℕ → Option Recovered
unfolding recover_one
recover_each codec watermark st [] = some st
recover_each codec watermark st (seqno ∷ rest) = do
  st' ← recover_one codec watermark st seqno
  recover_each codec watermark st' rest

module _ (redb : Redb) (chrono : Chrono) (codec : Codec) where
  abbrev opened : Index redb → Files → Recovered → Shared redb chrono
  opened index files st =
      let wal = open_wal st.wal_dir (st.max_seqno + 1) in
      record {
        wal_dir = wal.dir;
        index = index;
        files = sweep_orphans (all_block_paths redb index) files;
        hot = st.hot;
        active_seqno = wal.active_seqno;
      }

  -- `Store::open`; `none` means that the reader of a segment ran out of fuel.
  unfoldable pub open_store : Dir → Index redb → Files → Option (Shared redb chrono)
  open_store wal_dir index files =
      let mark = watermark redb index in
      do
        st ←
            recover_each codec mark
              (record { wal_dir = wal_dir; hot = hot_empty; max_seqno = mark })
              (list_segment_seqnos wal_dir)
        some (opened index files st)
