-- ===== src/Merge/Overwrite.antt =====
-- A merge whose output's name is that of an indexed block which is not among its inputs.
use evald.Prelude.{
  ℕ, ◌≡◌, sym, ap, ◌∙◌, false, any, List, Text, text_beq, text_beq_iff, text_eq, inl, inr,
}
use evald.Prelude.Io.{ok}
use evald.Key.{SpanKey, key_eq}
use evald.Index.{Redb}
use evald.Merge.{Candidate}
use evald.Merge.Inputs.{MergeFaults, output_rel}
use evald.Merge.Pass.{Cold, Progress, merge_chunk}
use evald.Merge.Swap.{row_of_input, InBlock, InCold-swap}
use evald.Merge.Effects.{IsNew}
use evald.Merge.Keeps.{InColdTier, AreHeld}
use evald.Merge.Committed.{merge_chunk-Committed}

module _ (redb : Redb) where
  -- An identity that only one block holds.
  abbrev pub IsOnlyIn : Cold redb → SpanKey → Text → Type 0
  IsOnlyIn cold k block = (p : Text) → InBlock redb cold.index cold.files k p → p ≡ block

  -- A merge that succeeds replaces whatever block has its output's name: an identity that only that block
  -- held is gone from the cold tier. The block is not among the merge's inputs, whose blocks the index holds.
  pub merge_chunk-overwritten :
      (faults : MergeFaults) (now : ℕ) (dir prefix : Text) (chunk : List Candidate)
      (st : Progress redb) (k : SpanKey)
      → IsNew redb (output_rel dir prefix chunk) chunk
      → AreHeld redb st.cold.index chunk
      → IsOnlyIn st.cold k (output_rel dir prefix chunk)
      → (merge_chunk redb faults now false dir prefix chunk st).0 ≡ ok tt
      → ¬ InColdTier redb (merge_chunk redb faults now false dir prefix chunk st).1.cold k
  merge_chunk-overwritten faults now dir prefix chunk st k new held only succeeds found =
      let out = output_rel dir prefix chunk in
      let (inputs, (read, named), stamped, i, f) =
        merge_chunk-Committed redb faults now dir prefix chunk st new succeeds in
      elim ((InCold-swap redb st.cold.index st.cold.files out inputs k).0 (rw (i, f) at found)) [
        | inl row ↦
            let (p, is_in, there) = row_of_input st.cold.files inputs k read row in
            let of_chunk = sym (named p) ∙ is_in in
            let same = only p (held p of_chunk, there) in
            let clash = ap (λ (q : Text). any (λ (c : Candidate). text_beq c.rel q) chunk) same in
            cc (sym of_chunk ∙ clash ∙ new)
        | inr (p, other, block) ↦
            let same = (text_beq_iff (output_rel dir prefix chunk) p).1 (sym (only p block)) in
            cc (sym (other.0) ∙ same)
      ]
