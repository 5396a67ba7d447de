-- ===== src/Merge/Kept.antt =====
-- What a merge pass keeps: the identities of the cold tier, the watermark, and on a dry run everything.
use evald.Prelude.{
  ℕ, ◌≡◌, refl, ◌∙◌, ap, Bool, true, any, none, List, [], ◌∷◌, Text, text_beq, Bool-cases, inl, inr,
}
use evald.Key.{SpanKey}
use evald.Index.{Redb, BlockMeta, Index, commit_merge, remove_inputs, watermark}
use evald.Merge.{MergePolicy, MergeScope, Candidate}
use evald.Merge.Inputs.{MergeFaults, output_rel, output_meta, traces_of}
use evald.Merge.Pass.{Cold, Progress, merge_chunk}
use evald.Merge.Cold.{merge_cold}
use evald.Merge.Effects.{Effect, skipped, written, committed, merge_chunk-Effect}
use evald.Merge.Keeps.{IsFree, InColdTier, merge_chunk-kept}
use evald.Merge.Along.{AlongPass}
use evald.Merge.Always.{always-AlongPass}
use evald.Merge.Runs.{merge_cold-keeps}

module _ (redb : Redb) where
  -- The name of a merge's output is that of no indexed block.
  abbrev pub HasFreeOutput : Cold redb → Text → Text → List Candidate → Type 0
  HasFreeOutput cold dir prefix chunk = IsFree redb cold.index (output_rel dir prefix chunk)

  -- A merge pass, over all hours and all closed days, loses no identity of the cold tier, wherever
  -- it stops. Each merge that it makes has an output whose name no block has that the index holds then.
  pub merge_cold-kept :
      (faults : MergeFaults) (now : ℕ) (today : Text) (policy : MergePolicy) (scope : MergeScope)
      (dry_run : Bool) (cold : Cold redb) (k : SpanKey)
      → AlongPass redb faults now dry_run HasFreeOutput policy scope today cold
      → InColdTier redb cold k
      → InColdTier redb (merge_cold redb faults now today policy scope dry_run cold).1.cold k
  merge_cold-kept faults now today policy scope dry_run cold k along h =
      merge_cold-keeps redb faults now dry_run HasFreeOutput (λ c. InColdTier redb c k)
        (λ dir prefix chunk st free found.
          merge_chunk-kept redb faults now dry_run dir prefix chunk st k free found)
        policy scope today cold along h

  merge_chunk-dry_run :
      (faults : MergeFaults) (now : ℕ) (dir prefix : Text) (chunk : List Candidate)
      (st : Progress redb)
      → (merge_chunk redb faults now true dir prefix chunk st).1.cold ≡ st.cold
  unfolding merge_chunk
  merge_chunk-dry_run faults now dir prefix chunk st =
      elim (Bool-cases
        (any (λ (c : Candidate). text_beq c.rel (output_rel dir prefix chunk)) chunk)) [
          | inl e ↦ rw e refl
          | inr e ↦ rw e refl
        ]

  meta-remove_inputs :
      (inputs : List (Text × List Text)) (index : Index redb)
      → (remove_inputs redb inputs index).meta ≡ index.meta
  meta-remove_inputs [] index = refl
  meta-remove_inputs ((rel, traces) ∷ rest) index = meta-remove_inputs rest _

  pub watermark-commit_merge :
      (index : Index redb) (output : BlockMeta) (inputs : List (Text × List Text))
      → watermark redb (commit_merge redb index output inputs none).1 ≡ watermark redb index
  unfolding watermark commit_merge
  watermark-commit_merge index output inputs = rw (meta-remove_inputs inputs index) refl

  Effect-watermark :
      (before after : Cold redb) (out : Text) (chunk : List Candidate)
      → Effect redb before after out chunk
      → watermark redb after.index ≡ watermark redb before.index
  Effect-watermark before after out chunk (skipped i f) = ap (watermark redb) i
  Effect-watermark before after out chunk (written inputs new read i f) = ap (watermark redb) i
  Effect-watermark before after out chunk (committed inputs new read i f) =
      ap (watermark redb) i
      ∙ watermark-commit_merge before.index (output_meta out inputs) (traces_of inputs)

  -- A merge pass never moves the watermark, wherever it stops, and a dry run leaves the index, the
  -- files and their footers as they are.
  pub merge_cold-watermark :
      (faults : MergeFaults) (now : ℕ) (today : Text) (policy : MergePolicy) (scope : MergeScope)
      (dry_run : Bool) (cold : Cold redb)
      → (watermark redb (merge_cold redb faults now today policy scope dry_run cold).1.cold.index
          ≡ watermark redb cold.index)
        × ((merge_cold redb faults now today policy scope true cold).1.cold ≡ cold)
  merge_cold-watermark faults now today policy scope dry_run cold = (
    merge_cold-keeps redb faults now dry_run (λ c dir prefix chunk. Unit)
        (λ c. watermark redb c.index ≡ watermark redb cold.index)
        (λ dir prefix chunk st free h.
          Effect-watermark st.cold _ (output_rel dir prefix chunk) chunk
            (merge_chunk-Effect redb faults now dry_run dir prefix chunk st)
          ∙ h)
        policy scope today cold
        (always-AlongPass redb faults now dry_run (λ c dir prefix chunk. Unit)
          (λ c dir prefix chunk. tt) policy scope today cold)
        refl,
    merge_cold-keeps redb faults now true (λ c dir prefix chunk. Unit) (λ c. c ≡ cold)
        (λ dir prefix chunk st free h. merge_chunk-dry_run faults now dir prefix chunk st ∙ h)
        policy scope today cold
        (always-AlongPass redb faults now true (λ c dir prefix chunk. Unit)
          (λ c dir prefix chunk. tt) policy scope today cold)
        refl,
  )
