-- ===== src/Index/Merged.antt =====
-- What a merge transaction makes of the listings.
use evald.Prelude.{
  ◌≡◌, ◌&&◌, ◌||◌, not, any, none, List, [], ◌∷◌, Text, text_beq, text_eq, contains, arith,
}
use evald.Index.{
  Redb, BlockMeta, Index, commit_merge, remove_inputs, insert_blocks, all_block_paths,
  block_paths_for_trace,
}
use evald.Index.Listing.{
  lists-insert_blocks, holds-insert_blocks, lists-remove_inputs, holds-remove_inputs,
}
use evald.Index.Consistent.{contains-all_block_paths}

module _ (redb : Redb) where
  pub contains-commit_merge :
      (index : Index redb) (output : BlockMeta) (inputs : List (Text × List Text)) (rel : Text)
      → contains (all_block_paths redb (commit_merge redb index output inputs none).1) rel ≡ (
          text_beq output.rel_path rel
          || not (any (λ (i : Text × List Text). text_beq i.0 rel) inputs)
            && contains (all_block_paths redb index) rel)
  unfolding commit_merge
  contains-commit_merge index output inputs rel = ground (
    arith,
    contains-all_block_paths redb
        (insert_blocks redb (output ∷ []) (remove_inputs redb inputs index)) rel,
    contains-all_block_paths redb index rel,
    holds-insert_blocks redb (output ∷ []) (remove_inputs redb inputs index) rel,
    holds-remove_inputs redb inputs index rel,
  )

  pub lists-commit_merge :
      (index : Index redb) (output : BlockMeta) (inputs : List (Text × List Text)) (t rel : Text)
      → contains (block_paths_for_trace redb (commit_merge redb index output inputs none).1 t) rel
        ≡ (text_beq output.rel_path rel && contains output.trace_ids t
            || not (any (λ (i : Text × List Text). text_beq i.0 rel && contains i.1 t) inputs)
              && contains (block_paths_for_trace redb index t) rel)
  unfolding commit_merge block_paths_for_trace
  lists-commit_merge index output inputs t rel = ground (
    arith,
    lists-insert_blocks redb (output ∷ []) (remove_inputs redb inputs index) t rel,
    lists-remove_inputs redb inputs index t rel,
  )
