-- ===== src/Retention/Selected.antt =====
-- Which blocks retention selects.
use evald.Prelude.{
  ℕ, ◌+◌, ◌≡◌, ◌∙◌, Bool, false, ◌&&◌, ◌||◌, Option, none, some, List, [], ◌∷◌, map, Text, text_eq,
  text_beq_iff, contains, contains-append, length, length-append, All, ltb, arith,
}
use evald.Index.{Redb, Index, blocks_with_max_start, block_count}
use evald.Retention.{Selection, select_one, select_each, selection, start}

-- Whether a block's newest start time is below the cutoff.
abbrev pub is_below : ℕ → Option ℕ → Bool
is_below cutoff none = false
is_below cutoff (some max_start) = ltb max_start cutoff

module _ (redb : Redb) (size : Text → Option ℕ) (cutoff : ℕ) where
  open redb use {get, iter, Table, contains-iter, get-iter}

  contains-select_each :
      (t : Table) (s : Selection) (l : List (Text × ℕ)) (p : Text)
      → All (λ (e : Text × ℕ). get e.0 t ≡ some e.1) l
      → contains (select_each size cutoff s l).drop_paths p ≡ (
          contains s.drop_paths p
          || (contains (map (λ (e : Text × ℕ). e.0) l) p && is_below cutoff (get p t)))
  unfolding select_each
  contains-select_each t s [] p h = ground arith
  contains-select_each t s ((rel, m) ∷ rest) p h =
      contains-select_each t (select_one size cutoff s rel m) rest p h.1
      ∙ ground (arith, h.0, contains-append s.drop_paths (rel ∷ []) p, text_beq_iff rel p)

  -- The selected blocks are those of the index that are below the cutoff.
  pub contains-selection :
      (index : Index redb) (p : Text)
      → contains (selection redb size cutoff index).drop_paths p
        ≡ is_below cutoff (get p index.blocks)
  unfolding selection blocks_with_max_start
  contains-selection index p =
      contains-select_each index.blocks (start redb) (iter index.blocks) p (get-iter index.blocks)
      ∙ ground (arith, contains-iter p index.blocks)

  counts-select_each :
      (s : Selection) (l : List (Text × ℕ))
      → length (select_each size cutoff s l).drop_paths + (select_each size cutoff s l).blocks_kept
        ≡ length s.drop_paths + s.blocks_kept + length l
  unfolding select_each
  counts-select_each s [] = omega arith
  counts-select_each s ((rel, m) ∷ rest) =
      counts-select_each (select_one size cutoff s rel m) rest
      ∙ ground (arith, length-append {0} s.drop_paths (rel ∷ []))

  -- Every block is counted once, as dropped or as kept.
  pub selection-block_count :
      (index : Index redb)
      → length (selection redb size cutoff index).drop_paths
          + (selection redb size cutoff index).blocks_kept
        ≡ block_count redb index
  unfolding selection block_count blocks_with_max_start
  selection-block_count index = counts-select_each (start redb) (iter index.blocks) ∙ omega arith
