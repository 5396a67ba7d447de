-- ===== src/Merge/Examples.antt =====
-- Merges over an index in memory: four blocks of one closed day, one for each of its first hours, all of
-- the log segment 5.
use evald.Prelude.{
  ◌<◌, ends_with, text_beq_iff, Bool-cases, inl, inr, ◌≡◌, ◌↔◌, refl, true, false, Option, none,
  some, List, [], ◌∷◌, ◌++◌, Text, bytes, text_beq, text_eq, contains, All, arith,
}
use evald.Prelude.Io.{ErrorKind, Outcome, ok}
use evald.Prelude.Copies.{first_copies}
use evald.Prelude.Maps.{text_less, get}
use evald.Model.{NormalizedSpan}
use evald.Model.Examples.{test_span}
use evald.Key.{SpanKey, other, span_key, key_of, decode_hex, key_eq}
use evald.Index.{
  BlockMeta, index_new, commit_flush, all_block_paths, blocks_with_max_start, commit_merge,
  watermark,
}
use evald.Index.Memory.{memory}
use evald.Flush.{published}
use evald.Merge.{
  MergePolicy, tick, Footer, Candidate, group, slot_of, day_is_closed, hour_slot, enabled,
}
use evald.Merge.Plan.{candidates, chunks, tier, is_quiet, has_rested}
use evald.Merge.Inputs.{MergeFaults, output_rel}
use evald.Merge.Pass.{Cold, Progress, merge_chunk, merge_chunks}
use mathlib.Core.Path.{subst}
use mathlib.Core.List.{Permᴰ}
use evald.Hot.{or_default}
use evald.Query.Distinct.{identities}
use evald.Merge.Overwrite.{IsOnlyIn, merge_chunk-overwritten}
use evald.Merge.Grace.{sweep_unindexed_lem, merge_chunk-grace}
use evald.Merge.Chunks.{concat_chunks, Fits, chunks_lem}
use evald.Merge.Tiers.{total_rows, IsOfTier, tier-lt-total_rows}
use evald.Merge.Cold.{sweep_unindexed, is_stray, start, merge_cold, merge_hours}
use evald.Merge.Along.{AlongPass}
use evald.Merge.Kept.{HasFreeOutput, merge_cold-kept, merge_cold-watermark}
use evald.Merge.Keeps.{IsFree, AreHeld, AreHeld-each, InColdTier, merge_chunk-InCold}

abbrev hour : Text → Text
hour h = bytes "blocks/2026/01/01/" ++ h ++ bytes "/00000000000000000005-0.parquet"

abbrev block_of : Text → Text → BlockMeta
block_of h trace = record { rel_path = hour h; max_start_unix_nano = 1; trace_ids = trace ∷ [] }

abbrev one : Text → List NormalizedSpan
one trace = test_span trace (bytes "s") 1 ∷ []

abbrev pub no_faults : MergeFaults
no_faults = record {
  failing = λ dir rel. none;
  read = λ out rel. none;
  stamp = λ out rel. none;
  publish = λ out. published;
  commit = λ out. none;
  encoded = λ out. 9;
}

abbrev segment_five : Text → Footer
segment_five rel = record {
  bytes = 10;
  modified = some 0;
  seqno_lo = 5;
  seqno_hi = 5;
  price_tables = bytes "v1" ∷ [];
}

abbrev four_hours : Cold memory
four_hours = record {
  index =
      (commit_flush memory (index_new memory) 5
        (block_of (bytes "00") (bytes "t0")
          ∷ block_of (bytes "01") (bytes "t1")
          ∷ block_of (bytes "02") (bytes "t2")
          ∷ block_of (bytes "03") (bytes "t3")
          ∷ [])
        none).1;
  files =
      (hour (bytes "00"), one (bytes "t0"))
      ∷ (hour (bytes "01"), one (bytes "t1"))
      ∷ (hour (bytes "02"), one (bytes "t2"))
      ∷ (hour (bytes "03"), one (bytes "t3"))
      ∷ [];
  footers = segment_five;
}

abbrev pub two_a_block : MergePolicy
two_a_block = record {
  hour_threshold = 2;
  max_spans_per_block = 2;
  day_merge = true;
  day_quiet = 5;
  unlink_grace = 60;
}

abbrev after : Outcome × Progress memory
after = merge_cold memory no_faults 100 (bytes "2026/01/02") two_a_block tick false four_hours

hour_ten :
    slot_of (hour (bytes "10"))
    ≡ some (hour_slot (bytes "blocks/2026/01/01/10") (bytes "blocks/2026/01/01"))
unfolding slot_of
hour_ten = refl

-- Both merges of the day write `day-5-5`, so the second replaces the first one's output.
loses_two :
    (after.0 ≡ ok tt)
    × (get
          (bytes "blocks/2026/01/01/day-00000000000000000005-00000000000000000005.parquet")
          after.1.cold.files
        ≡ some (one (bytes "t2") ++ one (bytes "t3")))
    × (all_block_paths memory after.1.cold.index
        ≡ bytes "blocks/2026/01/01/day-00000000000000000005-00000000000000000005.parquet" ∷ [])
unfolding merge_cold commit_flush commit_merge index_new all_block_paths blocks_with_max_start
    candidates chunks is_quiet enabled day_is_closed first_copies span_key key_of decode_hex
loses_two = (refl, refl, refl)

abbrev candidate : Text → Candidate
candidate h = record {
  rel = hour h;
  rows = 1;
  bytes = 10;
  modified = some 0;
  seqno_lo = 5;
  seqno_hi = 5;
  price_tables = bytes "v1" ∷ [];
}

abbrev first_chunk : List Candidate
first_chunk = candidate (bytes "00") ∷ candidate (bytes "01") ∷ []

abbrev second_chunk : List Candidate
second_chunk = candidate (bytes "02") ∷ candidate (bytes "03") ∷ []

abbrev day_dir : Text
day_dir = bytes "blocks/2026/01/01"

before_merge : Progress memory
before_merge = start memory false four_hours

after_first : Progress memory
unfolding before_merge
after_first =
    (merge_chunk memory no_faults 100 false day_dir (bytes "day") first_chunk before_merge).1

first_output : IsFree memory before_merge.cold.index (output_rel day_dir (bytes "day") first_chunk)
unfolding before_merge all_block_paths commit_flush index_new
first_output = refl

first_inputs : AreHeld memory before_merge.cold.index first_chunk
unfolding before_merge all_block_paths commit_flush index_new
first_inputs = AreHeld-each memory before_merge.cold.index first_chunk (refl, (refl, tt))

merge_chunk-InCold_example :
    InColdTier memory before_merge.cold (other (bytes "t1") (bytes "s"))
    ↔ InColdTier memory
        (merge_chunk memory no_faults 100 false day_dir
          (bytes "day")
          first_chunk
          before_merge).1.cold
        (other (bytes "t1") (bytes "s"))
merge_chunk-InCold_example =
    merge_chunk-InCold memory no_faults 100 false day_dir (bytes "day") first_chunk before_merge
      (other (bytes "t1") (bytes "s")) first_output first_inputs

-- The first merge alone has its output's name for itself.
abbrev one_merge : MergePolicy
one_merge = record two_a_block { max_spans_per_block = 4 }

runs_free :
    AlongPass memory no_faults 100 false
      (HasFreeOutput memory)
      one_merge
      tick
      (bytes "2026/01/02")
      four_hours
unfolding all_block_paths commit_flush index_new merge_hours group blocks_with_max_start candidates
    chunks is_quiet enabled day_is_closed commit_merge merge_chunks first_copies span_key key_of
    decode_hex
runs_free =
    λ e. ((λ a. cc, (λ a. cc, (λ a. cc, (λ a. cc, tt)))), λ d. (λ a b. (λ short. refl, tt), tt))

in_third_hour : InColdTier memory four_hours (other (bytes "t2") (bytes "s"))
unfolding all_block_paths commit_flush index_new span_key key_of decode_hex
in_third_hour = (hour (bytes "02"), (refl, refl))

merge_cold-kept_example :
    InColdTier memory
      (merge_cold memory no_faults 100 (bytes "2026/01/02") one_merge tick false four_hours).1.cold
      (other (bytes "t2") (bytes "s"))
merge_cold-kept_example =
    merge_cold-kept memory no_faults 100 (bytes "2026/01/02") one_merge tick false four_hours
      (other (bytes "t2") (bytes "s")) runs_free in_third_hour

merge_cold-watermark_example :
    (watermark memory
        (merge_cold memory no_faults 100
          (bytes "2026/01/02")
          two_a_block
          tick
          false
          four_hours).1.cold.index
      ≡ watermark memory four_hours.index)
    × ((merge_cold memory no_faults 100
          (bytes "2026/01/02")
          two_a_block
          tick
          true
          four_hours).1.cold
        ≡ four_hours)
merge_cold-watermark_example =
    merge_cold-watermark memory no_faults 100 (bytes "2026/01/02") two_a_block tick false four_hours

-- What holds of every listed path holds of one that is found in the list.
pub of_listed : (Q : Text → Type 0) (l : List Text) (p : Text) → All Q l → contains l p ≡ true → Q p
of_listed Q [] p h found = cc
of_listed Q (x ∷ l) p h found = elim (Bool-cases (text_beq x p)) [
  | inl e ↦ subst Q ((text_beq_iff x p).0 e) (h.0)
  | inr e ↦ of_listed Q l p h.1 (rw e at found)
]

abbrev day_block : Text
day_block = output_rel day_dir (bytes "day") second_chunk

abbrev first_trace : SpanKey
first_trace = other (bytes "t0") (bytes "s")

lone_trace : IsOnlyIn memory after_first.cold first_trace day_block
unfolding after_first before_merge merge_chunk commit_merge all_block_paths commit_flush index_new
    first_copies span_key key_of decode_hex
lone_trace p (held, found) =
    of_listed
      (λ q.
        contains (identities (or_default (get q after_first.cold.files))) first_trace ≡ true
        → q ≡ day_block)
      (all_block_paths memory after_first.cold.index) p (λ h. cc, (λ h. cc, (λ h. refl, tt))) held
      found

second_inputs : AreHeld memory after_first.cold.index second_chunk
unfolding after_first before_merge merge_chunk commit_merge all_block_paths commit_flush index_new
    first_copies span_key key_of decode_hex
second_inputs = AreHeld-each memory after_first.cold.index second_chunk (refl, (refl, tt))

second_succeeds :
    (merge_chunk memory no_faults 100 false day_dir (bytes "day") second_chunk after_first).0
    ≡ ok tt
unfolding after_first before_merge merge_chunk commit_merge commit_flush index_new first_copies
    span_key key_of decode_hex
second_succeeds = refl

merge_chunk-overwritten_example :
    ¬ InColdTier memory
      (merge_chunk memory no_faults 100 false day_dir (bytes "day") second_chunk after_first).1.cold
      first_trace
merge_chunk-overwritten_example =
    merge_chunk-overwritten memory no_faults 100 day_dir (bytes "day") second_chunk after_first
      first_trace refl second_inputs lone_trace second_succeeds

merge_chunk-grace_example :
    get
      (hour (bytes "03"))
      (sweep_unindexed memory
        (λ rel. none)
        150
        60
        (hour (bytes "03") ∷ [])
        (merge_chunk memory no_faults 100 false day_dir
          (bytes "day")
          second_chunk
          after_first).1.cold).1
    ≡ get (hour (bytes "03")) after_first.cold.files
merge_chunk-grace_example =
    merge_chunk-grace memory no_faults 100 day_dir (bytes "day") second_chunk after_first
      (λ rel. none) 150 60 (hour (bytes "03") ∷ []) (hour (bytes "03")) refl second_succeeds refl
      (omega arith)

sweep_unindexed_lem_example :
    ((contains (all_block_paths memory four_hours.index) (bytes "blocks/old.parquet") ≡ true)
        × (ends_with (bytes "blocks/old.parquet") (bytes ".tmp") ≡ false)
      → get
          (bytes "blocks/old.parquet")
          (sweep_unindexed memory
            (λ rel. none)
            100
            60
            (bytes "blocks/old.parquet" ∷ [])
            four_hours).1
        ≡ get (bytes "blocks/old.parquet") four_hours.files)
    × (has_rested (some 0) 100 60 ≡ false
        → get
            (bytes "blocks/old.parquet")
            (sweep_unindexed memory
              (λ rel. none)
              100
              60
              (bytes "blocks/old.parquet" ∷ [])
              four_hours).1
          ≡ get (bytes "blocks/old.parquet") four_hours.files)
    × (((rel : Text) → ◌≡◌ {A = Option ErrorKind} none none)
        → contains (bytes "blocks/old.parquet" ∷ []) (bytes "blocks/old.parquet") ≡ true
        → is_stray memory (all_block_paths memory four_hours.index) (bytes "blocks/old.parquet")
          ≡ true
        → has_rested (some 0) 100 60 ≡ true
        → get
            (bytes "blocks/old.parquet")
            (sweep_unindexed memory
              (λ rel. none)
              100
              60
              (bytes "blocks/old.parquet" ∷ [])
              four_hours).1
          ≡ none)
sweep_unindexed_lem_example =
    sweep_unindexed_lem memory (λ rel. none) 100 60 (bytes "blocks/old.parquet" ∷ []) four_hours
      (bytes "blocks/old.parquet")

one_row_each : All (IsOfTier 0) first_chunk
unfolding tier
one_row_each = ((omega arith, omega arith, refl), ((omega arith, omega arith, refl), tt))

higher_tier : 0 < tier (total_rows first_chunk)
higher_tier = tier-lt-total_rows 0 first_chunk one_row_each (omega arith) (omega arith)

chunks_lem_example :
    Permᴰ (concat_chunks (chunks first_chunk 1)) first_chunk × All (Fits 1) (chunks first_chunk 1)
chunks_lem_example = chunks_lem first_chunk 1 (omega arith) (omega arith, (omega arith, tt))
