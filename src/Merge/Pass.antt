-- ===== src/Merge/Pass.antt =====
-- src/store/merge.rs: `merge_chunk` and `merge_cold`. The compaction lock is the sequence of the calls.
use evald.Prelude.{
  ℕ, Bool, true, false, ◌&&◌, List, [], ◌∷◌, ◌++◌, map, Text, bytes, text_beq, text_eq, nat_eq, any,
  keep, length, ltb, leb, if◌then◌else◌,
}
use evald.Prelude.Copies.{first_copies}
use evald.Prelude.Io.{Result, Outcome, ok, err}
use evald.Prelude.Maps.{Map, text_less, nat_less, get, put, values}
use evald.Key.{span_key, key_eq}
use evald.Index.{Redb, Index, commit_merge}
use evald.Flush.{Files, Publish, published, unpublished, after_rename}
use evald.Merge.{MergePolicy, MergeScope, tick, full, MergeReport, Footer, Candidate, entries}
use evald.Merge.Plan.{tier, chunks}
use evald.Merge.Inputs.{
  MergeFaults, add_u64, sum_of, output_rel, Inputs, read_inputs, rows_of, traces_of, set_footer,
  stamp_each, output_meta, output_footer,
}

module _ (redb : Redb) where
  -- The index, the block files, and what their footers and metadata say.
  pub record Cold : Type 0 where
    pub index : Index redb
    pub files : Files
    pub footers : Text → Footer

  -- The cold tier with the locals of `merge_cold`.
  pub record Progress : Type 0 where
    pub cold : Cold
    pub report : MergeReport
    pub consumed : List Text

  abbrev pub with_cold : Progress → Cold → Progress
  with_cold st cold = record { cold = cold; report = st.report; consumed = st.consumed }

  abbrev pub counted : Progress → List Candidate → Progress
  counted st chunk = record {
    cold = st.cold;
    report = record st.report {
      merges = add_u64 st.report.merges 1;
      blocks_in = add_u64 st.report.blocks_in (length chunk);
      blocks_out = add_u64 st.report.blocks_out 1;
      spans = add_u64 st.report.spans (sum_of (λ c. c.rows) chunk);
      bytes_in = add_u64 st.report.bytes_in (sum_of (λ c. c.bytes) chunk);
    };
    consumed = st.consumed;
  }

  abbrev pub swapped : ℕ → Progress → Outcome × Index redb → Outcome × Progress
  swapped bytes_out st (err kind, index) =
      (err kind, with_cold st (record st.cold { index = index }))
  swapped bytes_out st (ok _, index) = (
    ok tt,
    record {
      cold = record st.cold { index = index };
      report = record st.report { bytes_out = add_u64 st.report.bytes_out bytes_out };
      consumed = st.consumed;
    },
  )

  -- From the stamps on.
  abbrev pub after_stamps :
      MergeFaults → Text → Inputs → Progress → Outcome × (Text → Footer) → Outcome × Progress
  after_stamps faults out inputs st (err kind, footers) =
      (err kind, with_cold st (record st.cold { footers = footers }))
  after_stamps faults out inputs st (ok _, footers) =
      swapped (faults.encoded out) (with_cold st (record st.cold { footers = footers })) (
        commit_merge redb st.cold.index (output_meta out inputs) (traces_of inputs)
          (faults.commit out))

  -- The output file, renamed into its place.
  abbrev pub with_output : MergeFaults → ℕ → Text → List Candidate → Inputs → Progress → Progress
  with_output faults now out chunk inputs st = with_cold st (record st.cold {
    files = put out (first_copies span_key [] (rows_of inputs)) st.cold.files;
    footers = set_footer out (output_footer now (faults.encoded out) chunk) st.cold.footers;
  })

  abbrev pub merge_written :
      MergeFaults → ℕ → Text → List Candidate → Inputs → Progress → Publish → Outcome × Progress
  merge_written faults now out chunk inputs st (unpublished kind) = (err kind, st)
  merge_written faults now out chunk inputs st (after_rename kind) =
      (err kind, with_output faults now out chunk inputs st)
  merge_written faults now out chunk inputs st published =
      let st' = with_output faults now out chunk inputs st in
      after_stamps faults out inputs st'
        (stamp_each (faults.stamp out) now st'.cold.footers (traces_of inputs))

  abbrev pub merge_read :
      MergeFaults → ℕ → Text → List Candidate → Progress → Result Inputs → Outcome × Progress
  merge_read faults now out chunk st (err kind) = (err kind, st)
  merge_read faults now out chunk st (ok inputs) =
      merge_written faults now out chunk inputs st (faults.publish out)

  unfoldable pub merge_chunk :
      MergeFaults → ℕ → Bool → Text → Text → List Candidate → Progress → Outcome × Progress
  merge_chunk faults now dry_run out_dir prefix chunk st =
      let out = output_rel out_dir prefix chunk in
      if any (λ (c : Candidate). text_beq c.rel out) chunk
      then (ok tt, st)
      else if dry_run
      then (ok tt, counted st chunk)
      else merge_read faults now out chunk (counted st chunk)
          (read_inputs (faults.read out) st.cold.files chunk)

  -- `?` on a step that changes the state.
  abbrev pub and_then : Outcome × Progress → (Progress → Outcome × Progress) → Outcome × Progress
  and_then (err kind, st) next = (err kind, st)
  and_then (ok _, st) next = next st

  -- `consumed.extend(..)`, in the hours of a dry run.
  abbrev pub consume : Bool → List Candidate → Progress → Progress
  consume false chunk st = st
  consume true chunk st = record {
    cold = st.cold;
    report = st.report;
    consumed = st.consumed ++ map (λ (c : Candidate). c.rel) chunk;
  }

  -- A chunk of one block is not a merge. `in_hours` tells the two phases apart.
  abbrev pub merge_one :
      MergeFaults → ℕ → Bool → Bool → Text → List Candidate → Progress → Outcome × Progress
  merge_one faults now dry_run in_hours dir chunk st =
      if ltb (length chunk) 2
      then (ok tt, st)
      else merge_chunk faults now dry_run dir (if in_hours then bytes "merged" else bytes "day")
          chunk (consume (in_hours && dry_run) chunk st)

  unfoldable pub merge_chunks :
      MergeFaults → ℕ → Bool → Bool → Text → List (List Candidate) → Progress → Outcome × Progress
  unfolding merge_chunk
  merge_chunks faults now dry_run in_hours dir [] st = (ok tt, st)
  merge_chunks faults now dry_run in_hours dir (chunk ∷ rest) st =
      and_then (merge_one faults now dry_run in_hours dir chunk st)
        (λ st'. merge_chunks faults now dry_run in_hours dir rest st')

  unfoldable pub merge_groups :
      MergeFaults → ℕ → Bool → Text → ℕ → List (List Candidate) → Progress → Outcome × Progress
  unfolding merge_chunks
  merge_groups faults now dry_run dir most [] st = (ok tt, st)
  merge_groups faults now dry_run dir most (g ∷ groups) st =
      and_then (merge_chunks faults now dry_run true dir (chunks g most) st)
        (λ st'. merge_groups faults now dry_run dir most groups st')

  -- The loop that fills `by_tier`.
  abbrev by_tier : Map ℕ (List Candidate) → List Candidate → Map ℕ (List Candidate)
  by_tier tiers [] = tiers
  by_tier tiers (c ∷ rest) =
      let t = tier c.rows in by_tier (put t (entries (get t tiers) ++ c ∷ []) tiers) rest

  abbrev pub groups_of : MergePolicy → MergeScope → List Candidate → List (List Candidate)
  groups_of policy full cands = cands ∷ []
  groups_of policy tick cands =
      keep (λ (t : List Candidate). leb policy.hour_threshold (length t))
        (values (by_tier [] cands))

  abbrev pub min_blocks : MergePolicy → MergeScope → ℕ
  min_blocks policy tick = policy.hour_threshold
  min_blocks policy full = 2
