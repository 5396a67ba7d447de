-- ===== src/Retention/Examples.antt =====
-- Retention over the two blocks of the index's examples.
use evald.Prelude.{
  ℕ, ◌+◌, ◌≡◌, refl, false, ◌&&◌, ◌||◌, not, Option, none, some, [], Text, text_eq, bytes, contains,
}
use evald.Prelude.Io.{ErrorKind, other_error, ok}
use evald.Prelude.Maps.{get, text_less}
use evald.Index.{
  index_new, commit_flush, blocks_with_max_start, all_block_paths, block_count, drop_blocks,
}
use evald.Index.Memory.{memory}
use evald.Index.Examples.{flushed}
use evald.Retention.{ReclaimReport, selection, select_each, remove_files, reclaim_before_in}
use evald.Retention.Selected.{is_below}
use evald.Retention.Kept.{reclaim_before_in-kept, reclaim_before_in_lem}

abbrev length_of : Text → Option ℕ
length_of rel = some 100

abbrev removable : Text → Option ErrorKind
removable rel = none

abbrev expected : ReclaimReport
expected = record {
  cutoff_unix_nano = 15;
  blocks_dropped = 1;
  bytes_reclaimed = 100;
  blocks_kept = 1;
  oldest_kept_unix_nano = some 20;
  dry_run = false;
}

reports : (reclaim_before_in memory length_of none removable flushed [] 15 false).0 ≡ ok expected
unfolding reclaim_before_in selection select_each blocks_with_max_start commit_flush index_new
    drop_blocks remove_files
reports = refl

keeps_b : is_below 15 (get (bytes "b") flushed.blocks) ≡ false
unfolding commit_flush index_new
keeps_b = refl

reclaim_before_in-kept_example :
    (contains
        (all_block_paths memory
          (reclaim_before_in memory length_of none (λ rel. some other_error) flushed [] 15 false).1)
        (bytes "b")
      ≡ contains (all_block_paths memory flushed) (bytes "b"))
    × (get
          (bytes "b")
          (reclaim_before_in memory length_of none (λ rel. some other_error) flushed [] 15 false).2
        ≡ none)
reclaim_before_in-kept_example =
    reclaim_before_in-kept memory length_of none (λ rel. some other_error) flushed [] 15 false
      (bytes "b") keeps_b

reclaim_before_in_lem_example :
    (expected.blocks_dropped + expected.blocks_kept ≡ block_count memory flushed)
    × ((p : Text)
        → contains
            (all_block_paths memory
              (reclaim_before_in memory length_of none removable flushed [] 15 false).1)
            p
          ≡ (contains (all_block_paths memory flushed) p
              && (false || not (is_below 15 (memory.get p flushed.blocks)))))
reclaim_before_in_lem_example =
    reclaim_before_in_lem memory length_of none removable flushed [] 15 false expected reports
