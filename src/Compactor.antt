-- ===== src/Compactor.antt =====
-- The compactor's task, `spawn_compactor` of src/store/mod.rs: every tick flushes the sealed segments, merges the blocks
-- that are due and sweeps what is no longer indexed. A tick that panics is not modelled; when the ticks come is left open.
pub mod Keeps
pub mod Ticks
pub mod Examples
use evald.Prelude.{ℕ, ◌+◌, ◌%◌, ◌^◌, Bool, true, false, Option, none, some, List, [], ◌∷◌, Text}
use evald.Prelude.Io.{ErrorKind, Result, Outcome, ok, err}
use evald.Index.{Redb}
use evald.Flush.{Chrono, Files, Faults, Shared, flush_pending}
use evald.Merge.{MergePolicy, tick, MergeReport, Footer}
use evald.Merge.Inputs.{MergeFaults, add_u64}
use evald.Merge.Pass.{Cold, Progress}
use evald.Merge.Cold.{MergeCounters, record_report, merge_cold, sweep_unindexed}

-- `CompactionCounters`
pub record CompactionCounters : Type 0 where
  pub passes : ℕ
  pub failures : ℕ

-- What one tick meets: how its calls end, the two readings of the clock, the day, and the paths that the sweep walks.
pub record Tick : Type 0 where
  pub flushes : ℕ → Faults
  pub merges : MergeFaults
  pub sweeps : Text → Option ErrorKind
  pub merged_at : ℕ
  pub swept_at : ℕ
  pub today : Text
  pub walk : List Text

module _ (redb : Redb) (chrono : Chrono) where
  pub record Compactor : Type 0 where
    pub shared : Shared redb chrono
    pub footers : Text → Footer
    pub counters : CompactionCounters
    pub merge_counters : MergeCounters redb

  abbrev pub cold_of : Compactor → Cold redb
  cold_of st = record { index = st.shared.index; files = st.shared.files; footers = st.footers }

  abbrev pub with_cold : Compactor → Cold redb → Compactor
  with_cold st cold = record st {
    shared = record st.shared { index = cold.index; files = cold.files };
    footers = cold.footers;
  }

  -- `match result`
  abbrev pub flushed : Compactor → Outcome × Shared redb chrono → Compactor
  flushed st (ok _, shared) = record st {
    shared = shared;
    counters = record st.counters { passes = add_u64 st.counters.passes 1 };
  }
  flushed st (err kind, shared) = record st {
    shared = shared;
    counters = record st.counters { failures = add_u64 st.counters.failures 1 };
  }

  abbrev failed : Compactor → Compactor
  failed st = record st {
    merge_counters = record st.merge_counters { failures = add_u64 st.merge_counters.failures 1 };
  }

  abbrev with_files : Compactor → Files → Compactor
  with_files st files = record st { shared = record st.shared { files = files } }

  abbrev pub swept : Compactor → MergeReport → Result ℕ × Files → Compactor
  swept st report (err kind, files) = failed (with_files st files)
  swept st report (ok removed, files) = record (with_files st files) {
    merge_counters = record_report redb st.merge_counters report;
  }

  -- From the merge on; its report is lost when the sweep fails.
  abbrev pub merged : Tick → MergePolicy → Compactor → Outcome × Progress redb → Compactor
  merged t policy st (err kind, progress) = failed (with_cold st progress.cold)
  merged t policy st (ok _, progress) =
      swept (with_cold st progress.cold) progress.report
        (sweep_unindexed redb t.sweeps t.swept_at policy.unlink_grace t.walk progress.cold)

  unfoldable pub compact : Tick → MergePolicy → Compactor → Compactor
  unfolding flush_pending merge_cold sweep_unindexed record_report
  compact t policy st =
      let after = flushed st (flush_pending redb chrono t.flushes st.shared) in
      merged t policy after
        (merge_cold redb t.merges t.merged_at t.today policy tick false (cold_of after))

  unfoldable pub compact_each : List Tick → MergePolicy → Compactor → Compactor
  unfolding compact
  compact_each [] policy st = st
  compact_each (t ∷ rest) policy st = compact_each rest policy (compact t policy st)
