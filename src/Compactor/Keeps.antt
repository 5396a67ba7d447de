-- ===== src/Compactor/Keeps.antt =====
-- No tick of the compactor loses an identity.
use evald.Prelude.{
  ◌≡◌, refl, sym, ap, ◌∙◌, Bool, false, List, Text, bytes, text_beq, text_beq_iff, text_eq,
  ends_with, arith, Bool-cases, inl, inr,
}
use evald.Prelude.Maps.{text_less}
use evald.Key.{SpanKey}
use evald.Index.{Redb}
use evald.Index.Merged.{contains-commit_merge}
use evald.Flush.{Chrono}
use evald.Flush.Names.{name_seqno}
use evald.Flush.Ready.{IsNamed}
use evald.Merge.{MergePolicy, tick, Candidate}
use evald.Merge.Inputs.{output_rel, output_meta, traces_of}
use evald.Merge.Pass.{Cold, merge_chunk}
use evald.Merge.Cold.{merge_cold, sweep_unindexed}
use evald.Merge.Swap.{InCold}
use evald.Merge.Effects.{Effect, skipped, written, committed, merge_chunk-Effect}
use evald.Merge.Always.{always-AlongPass}
use evald.Merge.Runs.{merge_cold-keeps}
use evald.Merge.Kept.{watermark-commit_merge}
use mathlib.Core.Path.{subst}
use evald.Merge.Names.{prefix_in, name_seqno-output_rel, published-output_rel}
use evald.Merge.Grace.{sweep_unindexed_lem}
use evald.Compactor.{Tick}

module _ (redb : Redb) (chrono : Chrono) where
  -- A merge within an hour or of a day.
  abbrev IsPhase : Cold redb → Text → Text → List Candidate → Type 0
  IsPhase cold dir prefix chunk = (in_hours : Bool) × (prefix ≡ prefix_in in_hours)

  Effect-IsNamed :
      (before after : Cold redb) (dir : Text) (in_hours : Bool) (chunk : List Candidate)
      → IsNamed redb chrono before.index
      → Effect redb before after (output_rel dir (prefix_in in_hours) chunk) chunk
      → IsNamed redb chrono after.index
  Effect-IsNamed before after dir in_hours chunk h (skipped i f) = rw i h
  Effect-IsNamed before after dir in_hours chunk h (written inputs new read i f) = rw i h
  Effect-IsNamed before after dir in_hours chunk h (committed inputs new read i f) = rw i λ p held.
      let out = output_rel dir (prefix_in in_hours) chunk in
      let mark =
        watermark-commit_merge redb before.index (output_meta out inputs) (traces_of inputs) in
      let listing =
        contains-commit_merge redb before.index (output_meta out inputs) (traces_of inputs) p in
      elim (Bool-cases (text_beq out p)) [
        | inl e ↦
            let same = (text_beq_iff out p).0 e in
            (
              omega (arith, sym (ap name_seqno same) ∙ name_seqno-output_rel dir chunk in_hours),
              sym (ap (λ (q : Text). ends_with q (bytes ".tmp")) same)
                  ∙ published-output_rel dir chunk (prefix_in in_hours),
            )
        | inr e ↦
            let (below, final) = h p (ground (arith, listing, e, held)) in
            (omega (arith, mark, below), final)
      ]

  pub merge_cold-IsNamed :
      (t : Tick) (policy : MergePolicy) (cold : Cold redb)
      → IsNamed redb chrono cold.index
      → IsNamed redb chrono
          (merge_cold redb t.merges t.merged_at t.today policy tick false cold).1.cold.index
  merge_cold-IsNamed t policy cold h =
      merge_cold-keeps redb t.merges t.merged_at false IsPhase (λ c. IsNamed redb chrono c.index)
        (λ dir prefix chunk st phase named. Effect-IsNamed st.cold _ dir phase.0 chunk named (
          subst
            (λ (q : Text).
              Effect redb st.cold
                (merge_chunk redb t.merges t.merged_at false dir prefix chunk st).1.cold
                (output_rel dir q chunk) chunk)
            (phase.1) (merge_chunk-Effect redb t.merges t.merged_at false dir prefix chunk st)))
        policy tick t.today cold
        (always-AlongPass redb t.merges t.merged_at false IsPhase
          (λ c dir in_hours chunk. (in_hours, refl)) policy tick t.today cold)
        h

  -- A sweep leaves the blocks that the index holds.
  pub sweep-InCold :
      (t : Tick) (policy : MergePolicy) (cold : Cold redb) (k : SpanKey)
      → IsNamed redb chrono cold.index
      → InCold redb cold.index cold.files k
      → InCold redb cold.index
          (sweep_unindexed redb t.sweeps t.swept_at policy.unlink_grace t.walk cold).1
          k
  sweep-InCold t policy cold k named (p, (held, found)) =
      let kept =
        (sweep_unindexed_lem redb t.sweeps t.swept_at policy.unlink_grace t.walk cold p).0
          (held, (named p held).1) in
      (p, (held, rw kept found))
