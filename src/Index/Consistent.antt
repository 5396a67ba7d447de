-- ===== src/Index/Consistent.antt =====
-- The listing by trace against the table of blocks, and the transactions that change both.
use evald.Prelude.{
  ℕ, ◌≡◌, refl, ap, true, ◌&&◌, ◌||◌, not, any, Option, none, some, List, [], ◌∷◌, Text, text_beq,
  text_eq, contains, arith,
}
use evald.Prelude.Io.{ErrorKind}
use evald.Index.{
  Redb, BlockMeta, Index, watermark_key, or_zero, watermark, insert_blocks, commit_flush,
  commit_merge, remove_inputs, all_block_paths, block_paths_for_trace, dropped, drop_blocks,
}
use evald.Index.Listing.{
  holds, lists, lists-insert_blocks, holds-insert_blocks, lists-remove_inputs, holds-remove_inputs,
  lists-dropped, holds-dropped,
}

module _ (redb : Redb) where
  open redb use {insert, get-insert, contains-iter}

  -- Every block that is listed for a trace is in the table of blocks.
  abbrev pub IsConsistent : Index redb → Type 0
  IsConsistent index =
      (t rel : Text)
      → contains (block_paths_for_trace redb index t) rel ≡ true
      → contains (all_block_paths redb index) rel ≡ true

  abbrev Dense : Index redb → Type 0
  Dense index = (t rel : Text) → lists redb index t rel ≡ true → holds redb index rel ≡ true

  pub contains-all_block_paths :
      (index : Index redb) (rel : Text)
      → contains (all_block_paths redb index) rel ≡ holds redb index rel
  unfolding all_block_paths
  contains-all_block_paths index rel = contains-iter rel index.blocks

  pub contains-block_paths_for_trace :
      (index : Index redb) (t rel : Text)
      → contains (block_paths_for_trace redb index t) rel ≡ lists redb index t rel
  unfolding block_paths_for_trace
  contains-block_paths_for_trace index t rel = refl

  to_Dense : (index : Index redb) → IsConsistent index → Dense index
  unfolding block_paths_for_trace
  to_Dense index h t rel e = ground (arith, h t rel e, contains-all_block_paths index rel)

  of_Dense : (index : Index redb) → Dense index → IsConsistent index
  unfolding block_paths_for_trace
  of_Dense index h t rel e = ground (arith, h t rel e, contains-all_block_paths index rel)

  insert_blocks-Dense :
      (blocks : List BlockMeta) (index : Index redb)
      → Dense index
      → Dense (insert_blocks redb blocks index)
  insert_blocks-Dense blocks index h t rel e = ground (
    arith,
    lists-insert_blocks redb blocks index t rel,
    holds-insert_blocks redb blocks index rel,
    h t rel,
    any_weaker blocks t rel,
  )
    where
      any_weaker :
          (l : List BlockMeta) (t rel : Text)
          → any (λ (b : BlockMeta). text_beq b.rel_path rel && contains b.trace_ids t) l ≡ true
          → any (λ (b : BlockMeta). text_beq b.rel_path rel) l ≡ true
      any_weaker [] t rel e = e
      any_weaker (b ∷ l) t rel e = ground (arith, any_weaker l t rel)

  -- A flush transaction, committed or not, keeps the index consistent.
  pub commit_flush-IsConsistent :
      (index : Index redb) (sealed_seqno : ℕ) (blocks : List BlockMeta) (failure : Option ErrorKind)
      → IsConsistent index
      → IsConsistent (commit_flush redb index sealed_seqno blocks failure).1
  unfolding commit_flush
  commit_flush-IsConsistent index sealed_seqno blocks (some kind) h = h
  commit_flush-IsConsistent index sealed_seqno blocks none h =
      of_Dense _ (insert_blocks-Dense blocks index (to_Dense index h))

  -- Dropping blocks, committed or not, keeps the index consistent.
  pub drop_blocks-IsConsistent :
      (index : Index redb) (paths : List Text) (failure : Option ErrorKind)
      → IsConsistent index
      → IsConsistent (drop_blocks redb index paths failure).1
  unfolding drop_blocks
  drop_blocks-IsConsistent index [] failure h = h
  drop_blocks-IsConsistent index (p ∷ paths) (some kind) h = h
  drop_blocks-IsConsistent index (p ∷ paths) none h = of_Dense _ (λ t rel e. ground (
    arith,
    lists-dropped redb index (p ∷ paths) t rel,
    holds-dropped redb index (p ∷ paths) rel,
    to_Dense index h t rel,
  ))

  -- The inputs of a merge name every trace that the index lists for them.
  abbrev pub Covers : Index redb → List (Text × List Text) → Type 0
  Covers index inputs =
      (t rel : Text)
      → contains (block_paths_for_trace redb index t) rel ≡ true
      → any (λ (i : Text × List Text). text_beq i.0 rel) inputs ≡ true
      → any (λ (i : Text × List Text). text_beq i.0 rel && contains i.1 t) inputs ≡ true

  -- A merge whose inputs name all their traces, committed or not, keeps the index consistent.
  pub commit_merge-IsConsistent :
      (index : Index redb) (output : BlockMeta) (inputs : List (Text × List Text))
      (failure : Option ErrorKind)
      → IsConsistent index
      → Covers index inputs
      → IsConsistent (commit_merge redb index output inputs failure).1
  unfolding commit_merge block_paths_for_trace
  commit_merge-IsConsistent index output inputs (some kind) h covers = h
  commit_merge-IsConsistent index output inputs none h covers = of_Dense _ (
      insert_blocks-Dense (output ∷ []) (remove_inputs redb inputs index) (λ t rel e. ground (
        arith,
        lists-remove_inputs redb inputs index t rel,
        holds-remove_inputs redb inputs index rel,
        to_Dense index h t rel,
        covers t rel,
      )))

  -- A committed drop takes exactly the given blocks out of every listing.
  pub contains-drop_blocks :
      (index : Index redb) (paths : List Text) (t rel : Text)
      → (contains (all_block_paths redb (drop_blocks redb index paths none).1) rel
          ≡ (not (contains paths rel) && contains (all_block_paths redb index) rel))
        × (contains (block_paths_for_trace redb (drop_blocks redb index paths none).1 t) rel
            ≡ (not (contains paths rel) && contains (block_paths_for_trace redb index t) rel))
  unfolding drop_blocks block_paths_for_trace
  contains-drop_blocks index [] t rel = (refl, refl)
  contains-drop_blocks index (p ∷ paths) t rel = (
    ground (
      arith,
      contains-all_block_paths (dropped redb index (p ∷ paths)) rel,
      holds-dropped redb index (p ∷ paths) rel,
      contains-all_block_paths index rel,
    ),
    lists-dropped redb index (p ∷ paths) t rel,
  )

  -- A committed flush advances the watermark to its segment and lists exactly its blocks in
  -- addition to what was listed, each for the traces of its spans.
  pub commit_flush_lem :
      (index : Index redb) (sealed_seqno : ℕ) (blocks : List BlockMeta) (t rel : Text)
      → (watermark redb (commit_flush redb index sealed_seqno blocks none).1 ≡ sealed_seqno)
        × (contains (all_block_paths redb (commit_flush redb index sealed_seqno blocks none).1) rel
            ≡ (any (λ (b : BlockMeta). text_beq b.rel_path rel) blocks
                || contains (all_block_paths redb index) rel))
        × (contains
              (block_paths_for_trace redb (commit_flush redb index sealed_seqno blocks none).1 t)
              rel
            ≡ (any (λ (b : BlockMeta). text_beq b.rel_path rel && contains b.trace_ids t) blocks
                || contains (block_paths_for_trace redb index t) rel))
  unfolding watermark commit_flush block_paths_for_trace
  commit_flush_lem index sealed_seqno blocks t rel = (
    ap or_zero (
        get-insert watermark_key watermark_key sealed_seqno (insert_blocks redb blocks index).meta),
    ground (
      arith,
      contains-all_block_paths
          (record (insert_blocks redb blocks index) {
            meta = insert watermark_key sealed_seqno (insert_blocks redb blocks index).meta;
          })
          rel,
      contains-all_block_paths index rel,
      holds-insert_blocks redb blocks index rel,
    ),
    lists-insert_blocks redb blocks index t rel,
  )
