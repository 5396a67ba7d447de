-- ===== src/Compactor/Examples.antt =====
-- A tick that flushes a segment, merges two older blocks and sweeps one file that the index does not name.
use evald.Prelude.{
  ℕ, ◌^◌, ◌≤◌, ◌≡◌, refl, false, none, some, List, [], ◌∷◌, Text, bytes, text_eq, nat_eq, nat_beq,
  ends_with, length, arith, Bool-cases, inl, inr,
}
use evald.Prelude.Copies.{first_copies}
use evald.Prelude.Maps.{text_less, nat_less}
use evald.Model.{NormalizedSpan}
use evald.Model.Examples.{test_span}
use evald.Key.{other, span_key, key_of, decode_hex, key_eq}
use evald.Hot.{segment, segnos}
use evald.Index.{
  BlockMeta, index_new, commit_flush, commit_merge, all_block_paths, blocks_with_max_start,
  watermark,
}
use evald.Index.Memory.{memory}
use evald.Flush.{
  Faults, published, rel_path_of, stem_of, flush_pending, by_partition, partition_of, write_blocks,
  write_block, block_meta,
}
use evald.Flush.Examples.{clock}
use evald.Flush.Cold.{groups_of}
use evald.Flush.Names.{name_seqno}
use mathlib.Core.Path.{subst}
use evald.Flush.Ready.{IsNumbered, IsNamed}
use evald.Merge.{Footer, day_is_closed, enabled, group}
use evald.Merge.Plan.{candidates, chunks, is_quiet, tier}
use evald.Merge.Cold.{merge_hours}
use evald.Merge.Examples.{no_faults, two_a_block, of_listed}
use evald.Compactor.{Tick, Compactor, compact, compact_each}
use evald.Compactor.Ticks.{Holds, Ready, HaveFreeOutputs, compact_each-kept}

abbrev hour_block : ℕ → Text
hour_block seqno = rel_path_of (bytes "2026/01/02/03") (stem_of seqno 0)

abbrev one : Text → List NormalizedSpan
one trace = test_span trace (bytes "s") 1 ∷ []

abbrev two : List NormalizedSpan
two = test_span (bytes "t3") (bytes "s1") 10 ∷ test_span (bytes "t3") (bytes "s2") 20 ∷ []

abbrev block_of : ℕ → Text → BlockMeta
block_of seqno trace = record {
  rel_path = hour_block seqno;
  max_start_unix_nano = 1;
  trace_ids = trace ∷ [];
}

abbrev footer_of : ℕ → Footer
footer_of seqno = record {
  bytes = 10;
  modified = some 0;
  seqno_lo = seqno;
  seqno_hi = seqno;
  price_tables = [];
}

abbrev running : Compactor memory clock
running = record {
  shared = record {
    wal_dir = (3, []) ∷ [];
    index =
        (commit_flush memory (index_new memory) 2
          (block_of 1 (bytes "t1") ∷ block_of 2 (bytes "t2") ∷ []) none).1;
    files = (hour_block 1, one (bytes "t1")) ∷ (hour_block 2, one (bytes "t2")) ∷ [];
    hot = record { segments = (3, two) ∷ [] };
    active_seqno = 4;
  };
  footers = λ rel. footer_of 1;
  counters = record { passes = 0; failures = 0 };
  merge_counters = record { merges = 0; blocks_merged = 0; failures = 0 };
}

abbrev all_well : ℕ → Faults
all_well seqno = record { publish = λ idx. published; commit = none; delete = none }

abbrev first_tick : Tick
first_tick = record {
  flushes = all_well;
  merges = no_faults;
  sweeps = λ rel. none;
  merged_at = 100;
  swept_at = 101;
  today = bytes "2026/01/02";
  walk = bytes "blocks/old.parquet" ∷ [];
}

merges_two :
    ((compact memory clock first_tick two_a_block running).merge_counters.blocks_merged ≡ 2)
    × ((compact memory clock first_tick two_a_block running).counters.passes ≡ 1)
unfolding compact commit_flush commit_merge index_new all_block_paths blocks_with_max_start
    candidates chunks is_quiet enabled day_is_closed first_copies span_key key_of decode_hex segnos
    segment by_partition partition_of write_blocks write_block block_meta watermark tier
merges_two = (refl, refl)

numbered : IsNumbered memory clock running.shared.hot
unfolding segment by_partition partition_of first_copies span_key key_of decode_hex
numbered n spans e = elim (Bool-cases (nat_beq 3 n)) [
  | inl same ↦
      let three : n ≡ 3 = ground (arith, same) in
      let here : two ≡ spans = cc (rw three at e) in
      (
        omega (arith, three),
        subst (λ (l : List NormalizedSpan). length (groups_of memory clock l) ≤ 2 ^ 64) here
            (omega arith),
      )
  | inr differs ↦ cc (rw differs at e)
]

running-IsNamed : IsNamed memory clock running.shared.index
unfolding all_block_paths commit_flush index_new watermark
running-IsNamed p held =
    of_listed (λ q. (name_seqno q ≤ 2) × (ends_with q (bytes ".tmp") ≡ false))
      (all_block_paths memory running.shared.index) p
      ((omega arith, refl), ((omega arith, refl), tt)) held

running-Ready : Ready memory clock running
running-Ready = record {
  distinct = (refl, tt);
  ascending = tt;
  is_named = running-IsNamed;
  is_numbered = numbered;
}

free_outputs : HaveFreeOutputs memory clock (first_tick ∷ []) two_a_block running
unfolding compact commit_flush commit_merge index_new all_block_paths blocks_with_max_start
    candidates chunks is_quiet enabled day_is_closed first_copies span_key key_of decode_hex segnos
    segment by_partition partition_of write_blocks write_block block_meta watermark tier
    flush_pending merge_hours group
free_outputs = (λ e. ((λ a. ((λ short. refl, tt), tt), tt), λ d. (λ a. cc, tt)), tt)

compact_each-kept_example :
    (Holds memory clock running (other (bytes "t1") (bytes "s"))
      → Holds memory clock
          (compact_each memory clock (first_tick ∷ []) two_a_block running)
          (other (bytes "t1") (bytes "s")))
    × Ready memory clock (compact_each memory clock (first_tick ∷ []) two_a_block running)
compact_each-kept_example =
    compact_each-kept memory clock (first_tick ∷ []) two_a_block running
      (other (bytes "t1") (bytes "s")) running-Ready free_outputs
