-- ===== src/Merge/Cold.antt =====
-- src/store/merge.rs, `merge_cold` and `sweep_unindexed`, with `merge_now` and `MergeCounters` of
-- src/store/mod.rs. Pruning the directories that a sweep empties is not modelled.
use evald.Prelude.{
  ℕ, suc, Bool, true, false, ◌&&◌, ◌||◌, not, Option, none, some, List, [], ◌∷◌, Text, bytes,
  text_eq, nat_eq, keep, contains, length, ends_with, ltb, if◌then◌else◌,
}
use evald.Prelude.Io.{ErrorKind, Result, Outcome, ok, err}
use evald.Prelude.Maps.{text_less, nat_less, delete}
use evald.Index.{Redb, all_block_paths}
use evald.Query.{is_not_found}
use evald.Flush.{Files}
use evald.Merge.{
  MergePolicy, enabled, MergeScope, tick, full, MergeReport, Candidate, Grouped, day_is_closed,
  group,
}
use evald.Merge.Plan.{candidates, is_quiet, has_rested, chunks}
use evald.Merge.Inputs.{MergeFaults, add_u64}
use evald.Merge.Pass.{Cold, Progress, and_then, merge_chunks, merge_groups, groups_of, min_blocks}

abbrev no_report : Bool → MergeReport
no_report dry_run = record {
  merges = 0;
  blocks_in = 0;
  blocks_out = 0;
  spans = 0;
  bytes_in = 0;
  bytes_out = 0;
  dry_run = dry_run;
}

abbrev pub is_tick : MergeScope → Bool
is_tick tick = true
is_tick full = false

module _ (redb : Redb) where
  -- `candidates(..)?` and what is done with them.
  abbrev pub planned :
      Progress redb
      → Result (List Candidate)
      → (List Candidate → Outcome × Progress redb)
      → Outcome × Progress redb
  planned st (err kind) next = (err kind, st)
  planned st (ok cands) next = next cands

  abbrev pub merge_hour :
      MergeFaults
      → ℕ
      → MergePolicy
      → MergeScope
      → Bool
      → Text
      → List Text
      → Progress redb
      → Outcome × Progress redb
  merge_hour faults now policy scope dry_run dir rels st =
      if ltb (length rels) (min_blocks redb policy scope)
      then (ok tt, st)
      else planned st (candidates (faults.failing dir) st.cold.footers st.cold.files rels) (λ cands.
        merge_groups redb faults now dry_run dir policy.max_spans_per_block
          (groups_of redb policy scope cands) st)

  unfoldable pub merge_hours :
      MergeFaults
      → ℕ
      → MergePolicy
      → MergeScope
      → Bool
      → Grouped
      → Progress redb
      → Outcome × Progress redb
  unfolding merge_groups
  merge_hours faults now policy scope dry_run [] st = (ok tt, st)
  merge_hours faults now policy scope dry_run ((dir, rels) ∷ rest) st =
      and_then redb (merge_hour faults now policy scope dry_run dir rels st)
        (λ st'. merge_hours faults now policy scope dry_run rest st')

  abbrev pub merge_day :
      MergeFaults
      → ℕ
      → Text
      → MergePolicy
      → MergeScope
      → Bool
      → Text
      → List Text
      → Progress redb
      → Outcome × Progress redb
  merge_day faults now today policy scope dry_run dir rels st =
      let left = keep (λ r. not (contains st.consumed r)) rels in
      if not (day_is_closed dir today) || ltb (length left) 2
      then (ok tt, st)
      else planned st (candidates (faults.failing dir) st.cold.footers st.cold.files left) (λ cands.
        if is_tick scope && not (is_quiet cands now policy.day_quiet)
        then (ok tt, st)
        else merge_chunks redb faults now dry_run false dir
            (chunks cands policy.max_spans_per_block) st)

  unfoldable pub merge_days :
      MergeFaults
      → ℕ
      → Text
      → MergePolicy
      → MergeScope
      → Bool
      → Grouped
      → Progress redb
      → Outcome × Progress redb
  unfolding merge_chunks
  merge_days faults now today policy scope dry_run [] st = (ok tt, st)
  merge_days faults now today policy scope dry_run ((dir, rels) ∷ rest) st =
      and_then redb (merge_day faults now today policy scope dry_run dir rels st)
        (λ st'. merge_days faults now today policy scope dry_run rest st')

  abbrev pub start : Bool → Cold redb → Progress redb
  start dry_run cold = record { cold = cold; report = no_report dry_run; consumed = [] }

  unfoldable pub merge_cold :
      MergeFaults → ℕ → Text → MergePolicy → MergeScope → Bool → Cold redb → Outcome × Progress redb
  unfolding merge_hours merge_days group
  merge_cold faults now today policy scope dry_run cold =
      if is_tick scope && not (enabled policy)
      then (ok tt, start dry_run cold)
      else and_then redb
          (merge_hours faults now policy scope dry_run (group redb cold.index).0
            (start dry_run cold))
          (λ st.
            if policy.day_merge
            then merge_days faults now today policy scope dry_run (group redb st.cold.index).1 st
            else (ok tt, st))

  pub record MergeCounters : Type 0 where
    pub merges : ℕ
    pub blocks_merged : ℕ
    pub failures : ℕ

  -- `MergeCounters::record`
  unfoldable pub record_report : MergeCounters → MergeReport → MergeCounters
  record_report counters report = record counters {
    merges = add_u64 counters.merges report.merges;
    blocks_merged = add_u64 counters.blocks_merged report.blocks_in;
  }

  abbrev noted :
      Bool
      → MergeCounters
      → Outcome × Progress redb
      → Result MergeReport × Cold redb × MergeCounters
  noted dry_run counters (err kind, st) = (err kind, st.cold, counters)
  noted dry_run counters (ok _, st) =
      (ok st.report, st.cold, if dry_run then counters else record_report counters st.report)

  unfoldable pub merge_now :
      MergeFaults
      → ℕ
      → Text
      → MergePolicy
      → MergeScope
      → Bool
      → Cold redb
      → MergeCounters
      → Result MergeReport × Cold redb × MergeCounters
  unfolding merge_cold record_report
  merge_now faults now today policy scope dry_run cold counters =
      noted dry_run counters (merge_cold faults now today policy scope dry_run cold)

  abbrev pub is_stray : List Text → Text → Bool
  is_stray known rel =
      if ends_with rel (bytes ".tmp")
      then true
      else ends_with rel (bytes ".parquet") && not (contains known rel)

  -- What `fs::remove_file` does to the count and the files.
  abbrev pub removed_one : Option ErrorKind → Text → ℕ → Files → Result ℕ × Files
  removed_one none rel removed files = (ok (suc removed), delete rel files)
  removed_one (some kind) rel removed files =
      (if is_not_found kind then ok removed else err kind, files)

  -- One file.
  abbrev pub visit :
      (Text → Option ErrorKind)
      → (Text → Option ℕ)
      → ℕ
      → ℕ
      → List Text
      → Text
      → ℕ
      → Files
      → Result ℕ × Files
  visit failure modified now older_than known rel removed files =
      if is_stray known rel && has_rested (modified rel) now older_than
      then removed_one (failure rel) rel removed files
      else (ok removed, files)

  abbrev pub and_removed : Result ℕ × Files → (ℕ → Files → Result ℕ × Files) → Result ℕ × Files
  and_removed (err kind, files) next = (err kind, files)
  and_removed (ok removed, files) next = next removed files

  -- The walk, over the paths in the order in which it meets them.
  unfoldable pub sweep_each :
      (Text → Option ErrorKind)
      → (Text → Option ℕ)
      → ℕ
      → ℕ
      → List Text
      → List Text
      → ℕ
      → Files
      → Result ℕ × Files
  sweep_each failure modified now older_than known [] removed files = (ok removed, files)
  sweep_each failure modified now older_than known (rel ∷ rest) removed files =
      and_removed (visit failure modified now older_than known rel removed files)
        (λ removed' files'. sweep_each failure modified now older_than known rest removed' files')

  unfoldable pub sweep_unindexed :
      (Text → Option ErrorKind) → ℕ → ℕ → List Text → Cold redb → Result ℕ × Files
  unfolding sweep_each
  sweep_unindexed failure now older_than walk cold =
      sweep_each failure (λ rel. (cold.footers rel).modified) now older_than
        (all_block_paths redb cold.index) walk 0 cold.files
