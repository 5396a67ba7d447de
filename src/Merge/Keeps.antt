-- ===== src/Merge/Keeps.antt =====
-- What the merge of one chunk does to the identities of the cold tier.
use evald.Prelude.{
  ℕ, ◌≡◌, ◌↔◌, sym, ◌∙◌, Bool, true, false, any, All, List, [], ◌∷◌, Text, text_beq, text_beq_iff,
  text_eq, contains, arith, Bool-cases, inl, inr,
}
use evald.Key.{SpanKey, key_eq}
use evald.Index.{Redb, Index, all_block_paths}
use evald.Flush.{Files}
use evald.Merge.{Candidate}
use evald.Merge.Inputs.{MergeFaults, output_rel, Inputs}
use evald.Merge.Pass.{Cold, Progress, merge_chunk}
use evald.Merge.Swap.{
  is_input, AreRead, row_of_input, input_of_row, InCold, index_after, files_after, InCold-swap,
  other_kept,
}
use evald.Merge.Effects.{Effect, skipped, written, committed, merge_chunk-Effect}

module _ (redb : Redb) where
  -- The index holds every block of the chunk.
  abbrev pub AreHeld : Index redb → List Candidate → Type 0
  AreHeld index chunk =
      (p : Text)
      → any (λ (c : Candidate). text_beq c.rel p) chunk ≡ true
      → contains (all_block_paths redb index) p ≡ true

  pub AreHeld-each :
      (index : Index redb) (chunk : List Candidate)
      → All (λ (c : Candidate). contains (all_block_paths redb index) c.rel ≡ true) chunk
      → AreHeld index chunk
  AreHeld-each index [] h p named = cc
  AreHeld-each index (c ∷ chunk) h p named = elim (Bool-cases (text_beq c.rel p)) [
    | inl e ↦ rw (sym ((text_beq_iff c.rel p).0 e)) (h.0)
    | inr e ↦ AreHeld-each index chunk h.1 p (rw e at named)
  ]

  -- The index holds no block of a name.
  abbrev pub IsFree : Index redb → Text → Type 0
  IsFree index out = contains (all_block_paths redb index) out ≡ false

  module _ (index : Index redb) (files : Files) (out : Text) (inputs : Inputs) (k : SpanKey)
      (fresh : contains (all_block_paths redb index) out ≡ false) where
    other : (p : Text) → contains (all_block_paths redb index) p ≡ true → text_beq out p ≡ false
    other p held = ground (arith, text_beq_iff out p, fresh)

    -- A file that no block of the index is in changes nothing.
    InCold-write :
        InCold redb index files k ↔ InCold redb index (files_after redb files out inputs) k
    InCold-write = (
      λ (p, (held, found)).
          (p, (held, rw (other_kept redb files out p inputs (other p held)) found)),
      λ (p, (held, found)).
          (p, (held, rw (sym (other_kept redb files out p inputs (other p held))) found)),
    )

    -- The swap for a fresh output moves rows and loses none.
    swap_forth :
        AreRead files inputs
        → InCold redb index files k
        → InCold redb (index_after redb index out inputs) (files_after redb files out inputs) k
    swap_forth read (p, (held, found)) =
        (InCold-swap redb index files out inputs k).1 (elim (Bool-cases (is_input inputs p)) [
          | inl e ↦ inl (input_of_row files inputs k p read e found)
          | inr e ↦ inr (p, (other p held, e), (held, found))
        ])

    swap_back :
        AreRead files inputs
        → ((p : Text) → is_input inputs p ≡ true → contains (all_block_paths redb index) p ≡ true)
        → InCold redb (index_after redb index out inputs) (files_after redb files out inputs) k
        → InCold redb index files k
    swap_back read held h = elim ((InCold-swap redb index files out inputs k).0 h) [
      | inl row ↦
          let (p, named, found) = row_of_input files inputs k read row in (p, (held p named, found))
      | inr (p, other_p, block) ↦ (p, block)
    ]

  abbrev pub InColdTier : Cold redb → SpanKey → Type 0
  InColdTier cold k = InCold redb cold.index cold.files k

  Effect-forth :
      (before after : Cold redb) (out : Text) (chunk : List Candidate) (k : SpanKey)
      → IsFree before.index out
      → Effect redb before after out chunk
      → InColdTier before k
      → InColdTier after k
  Effect-forth before after out chunk k free (skipped i f) h = rw (i, f) h
  Effect-forth before after out chunk k free (written inputs new read i f) h =
      rw (i, f) ((InCold-write before.index before.files out inputs k free).0 h)
  Effect-forth before after out chunk k free (committed inputs new read i f) h =
      rw (i, f) (swap_forth before.index before.files out inputs k free read.0 h)

  Effect-back :
      (before after : Cold redb) (out : Text) (chunk : List Candidate) (k : SpanKey)
      → IsFree before.index out
      → AreHeld before.index chunk
      → Effect redb before after out chunk
      → InColdTier after k
      → InColdTier before k
  Effect-back before after out chunk k free held (skipped i f) h = rw (sym i, sym f) h
  Effect-back before after out chunk k free held (written inputs new read i f) h =
      (InCold-write before.index before.files out inputs k free).1 (rw (i, f) at h)
  Effect-back before after out chunk k free held (committed inputs new read i f) h =
      swap_back before.index before.files out inputs k free read.0
        (λ p e. held p (sym (read.1 p) ∙ e)) (rw (i, f) at h)

  -- However the merge of a chunk ends, refused, on an error at any step, or committed, the cold tier
  -- holds the identities that it held before and no others. The index holds the blocks of the chunk, and none by
  -- the output's name.
  pub merge_chunk-InCold :
      (faults : MergeFaults) (now : ℕ) (dry_run : Bool) (dir prefix : Text) (chunk : List Candidate)
      (st : Progress redb) (k : SpanKey)
      → IsFree st.cold.index (output_rel dir prefix chunk)
      → AreHeld st.cold.index chunk
      → InColdTier st.cold k
        ↔ InColdTier (merge_chunk redb faults now dry_run dir prefix chunk st).1.cold k
  merge_chunk-InCold faults now dry_run dir prefix chunk st k free held =
      let after = (merge_chunk redb faults now dry_run dir prefix chunk st).1.cold in
      let out = output_rel dir prefix chunk in
      let effect = merge_chunk-Effect redb faults now dry_run dir prefix chunk st in
      (
        Effect-forth st.cold after out chunk k free effect,
        Effect-back st.cold after out chunk k free held effect,
      )

  -- A merge whose output has a free name loses no identity.
  pub merge_chunk-kept :
      (faults : MergeFaults) (now : ℕ) (dry_run : Bool) (dir prefix : Text) (chunk : List Candidate)
      (st : Progress redb) (k : SpanKey)
      → IsFree st.cold.index (output_rel dir prefix chunk)
      → InColdTier st.cold k
      → InColdTier (merge_chunk redb faults now dry_run dir prefix chunk st).1.cold k
  merge_chunk-kept faults now dry_run dir prefix chunk st k free =
      Effect-forth st.cold (merge_chunk redb faults now dry_run dir prefix chunk st).1.cold
        (output_rel dir prefix chunk) chunk k free
        (merge_chunk-Effect redb faults now dry_run dir prefix chunk st)
