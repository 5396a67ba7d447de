-- ===== src/Flush/Examples.antt =====
-- A flush of one segment of two spans, over an index in memory.
use evald.Prelude.{ℕ, ◌≡◌, ◌↔◌, refl, none, some, List, [], ◌∷◌, bytes}
use evald.Prelude.Io.{other_error, ok, err}
use evald.Prelude.Copies.{first_copies}
use evald.Prelude.Decimal.{padded}
use evald.Model.{NormalizedSpan}
use evald.Model.Examples.{test_span}
use evald.Key.{other, span_key, key_of, decode_hex, key_eq}
use evald.Hot.{segment}
use evald.Index.{BlockMeta, index_new, all_block_paths, watermark}
use evald.Index.Memory.{memory}
use evald.Flush.{
  Chrono, Publish, published, Faults, Shared, partition_of, by_partition, block_meta, write_block,
  write_blocks, rel_path_of, stem_of, flush_one, flush_pending,
}
use evald.Flush.Cold.{Stored, paths_of, IsFresh}
use evald.Flush.Keeps.{flush_one-Stored}
use evald.Flush.Resident.{undeleted, flush_pending-undeleted}

abbrev pub clock : Chrono
clock = record { hour_path = λ secs nanos. some (bytes "2026/01/02/03") }

-- `{7:020}`
padded_seven : padded 7 ≡ bytes "00000000000000000007"
padded_seven = refl

abbrev two : List NormalizedSpan
two = test_span (bytes "t1") (bytes "s1") 10 ∷ test_span (bytes "t2") (bytes "s2") 20 ∷ []

abbrev before : Shared memory clock
before = record {
  wal_dir = (3, []) ∷ [];
  index = index_new memory;
  files = [];
  hot = record { segments = (3, two) ∷ [] };
  active_seqno = 4;
}

abbrev late_failure : Faults
late_failure = record { publish = λ idx. published; commit = none; delete = some other_error }

fresh : IsFresh memory clock before.index (paths_of memory clock before 3)
unfolding all_block_paths index_new by_partition partition_of first_copies segment span_key key_of
    decode_hex
fresh = ((refl, tt), λ p h. refl)

flush_one-Stored_example :
    Stored memory clock before (other (bytes "t1") (bytes "s1"))
    ↔ Stored memory clock
        (flush_one memory clock late_failure before 3).1
        (other (bytes "t1") (bytes "s1"))
flush_one-Stored_example =
    flush_one-Stored memory clock late_failure before 3 (other (bytes "t1") (bytes "s1")) (refl, tt)
      fresh

abbrev all_published : ℕ → Publish
all_published idx = published

abbrev blocks : List BlockMeta
blocks =
    record {
      rel_path = rel_path_of (bytes "2026/01/02/03") (stem_of 3 0);
      max_start_unix_nano = 20;
      trace_ids = bytes "t1" ∷ bytes "t2" ∷ [];
    }
    ∷ []

resident_segment : segment before.hot 3 ≡ some two
unfolding segment
resident_segment = refl

writes :
    (write_blocks before.files 3 0 all_published
      (by_partition clock [] (first_copies span_key [] two))).0
    ≡ ok blocks
unfolding write_blocks write_block block_meta by_partition partition_of first_copies span_key key_of
    decode_hex
writes = refl

flush_pending-undeleted_example :
    ((flush_one memory clock (undeleted memory clock all_published other_error) before 3).0
      ≡ err other_error)
    × (watermark memory
          (flush_one memory clock
            (undeleted memory clock all_published other_error)
            before
            3).1.index
        ≡ 3)
    × (segment
          (flush_pending memory clock
            (λ n. late_failure)
            (flush_one memory clock
              (undeleted memory clock all_published other_error)
              before
              3).1).1.hot
          3
        ≡ some two)
flush_pending-undeleted_example =
    flush_pending-undeleted memory clock before 3 two blocks all_published other_error
      (λ n. late_failure) resident_segment writes
