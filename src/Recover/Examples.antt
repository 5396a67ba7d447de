-- ===== src/Recover/Examples.antt =====
-- A restart over one log segment, and one after a flush that died before it removed the segment.
use evald.Prelude.{
  ℕ, ◌<◌, ◌≡◌, ◌↔◌, refl, true, none, some, [], ◌∷◌, contains, IsDistinct, arith, nat_eq,
}
use evald.Prelude.Io.{other_error}
use evald.Prelude.Copies.{first_copies}
use evald.Key.{SpanKey, span_key, key_of, decode_hex}
use evald.Hot.{segment}
use evald.Index.{index_new, all_block_paths, watermark, commit_flush}
use evald.Index.Memory.{memory}
use evald.Wal.{Dir, decode_records, decode_from, record_at, from_le_bytes, list_segment_seqnos}
use evald.Wal.Examples.{toy, held, stored}
use evald.Flush.{
  Faults, published, Shared, partition_of, by_partition, write_blocks, write_block, flush_one,
}
use evald.Flush.Cold.{Stored, paths_of, IsFresh}
use evald.Flush.Examples.{clock}
use evald.Recover.{open_store}
use evald.Recover.Reopen.{Durable, open_store-Durable}
use evald.Recover.Commit.{Logged}
use evald.Recover.Crash.{open_store-flush_one}

abbrev disk : Dir
disk = (3, stored) ∷ []

open_store-Durable_example :
    (st : Shared memory clock) × (open_store memory clock toy disk (index_new memory) [] ≡ some st)
    × ((k : SpanKey)
        → Durable memory clock toy disk (index_new memory) [] k ↔ Stored memory clock st k)
    × ((n : ℕ)
        → contains (list_segment_seqnos disk) n ≡ true
        → watermark memory (index_new memory) < n
        → n < st.active_seqno)
unfolding list_segment_seqnos
open_store-Durable_example =
    open_store-Durable memory clock toy disk (index_new memory) [] (refl, tt)

abbrev running : Shared memory clock
running = record {
  wal_dir = disk;
  index = index_new memory;
  files = [];
  hot = record { segments = (3, held) ∷ [] };
  active_seqno = 4;
}

abbrev late_failure : Faults
late_failure = record { publish = λ idx. published; commit = none; delete = some other_error }

running-Logged : Logged memory clock toy running 3
unfolding watermark index_new
running-Logged = record {
  above = omega arith;
  same = unfold segment decode_records decode_from record_at from_le_bytes in λ k. refl;
  first = λ n lower upper. ground arith;
}

running-IsFresh : IsFresh memory clock running.index (paths_of memory clock running 3)
unfolding all_block_paths index_new by_partition partition_of first_copies segment span_key key_of
    decode_hex
running-IsFresh = ((refl, tt), λ p h. refl)

one_segment :
    IsDistinct (list_segment_seqnos (flush_one memory clock late_failure running 3).1.wal_dir)
unfolding flush_one commit_flush write_blocks write_block segment list_segment_seqnos by_partition
    partition_of first_copies span_key key_of decode_hex
one_segment = (refl, tt)

open_store-flush_one_example :
    (st : Shared memory clock) × (open_store memory clock toy
        (flush_one memory clock late_failure running 3).1.wal_dir
        (flush_one memory clock late_failure running 3).1.index
        (flush_one memory clock late_failure running 3).1.files
      ≡ some st)
    × ((k : SpanKey)
        → Durable memory clock toy disk (index_new memory) [] k ↔ Stored memory clock st k)
open_store-flush_one_example =
    open_store-flush_one memory clock toy late_failure running 3 running-Logged running-IsFresh
      one_segment
