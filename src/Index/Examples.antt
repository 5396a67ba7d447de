-- ===== src/Index/Examples.antt =====
-- The index over tables in memory, with two blocks.
use evald.Prelude.{
  ℕ, ◌≡◌, refl, true, not, ◌&&◌, ◌||◌, any, none, some, List, [], ◌∷◌, Text, bytes, text_beq,
  text_eq, contains, arith,
}
use evald.Prelude.Io.{other_error}
use evald.Index.{
  BlockMeta, Index, index_new, watermark, commit_flush, commit_merge, drop_blocks, all_block_paths,
  block_paths_for_trace,
}
use evald.Index.Consistent.{
  IsConsistent, commit_flush-IsConsistent, drop_blocks-IsConsistent, commit_merge-IsConsistent,
  contains-drop_blocks, commit_flush_lem,
}
use evald.Index.Memory.{memory}

abbrev pub block : Text → ℕ → List Text → BlockMeta
block rel max_start traces = record {
  rel_path = rel;
  max_start_unix_nano = max_start;
  trace_ids = traces;
}

abbrev pub block_a : BlockMeta
block_a = block (bytes "a") 10 (bytes "t1" ∷ bytes "t2" ∷ [])

abbrev pub block_b : BlockMeta
block_b = block (bytes "b") 20 (bytes "t2" ∷ [])

new-IsConsistent : IsConsistent memory (index_new memory)
unfolding index_new block_paths_for_trace
new-IsConsistent t rel e = ground arith

abbrev pub flushed : Index memory
flushed = (commit_flush memory (index_new memory) 3 (block_a ∷ block_b ∷ []) none).1

flushed-IsConsistent : IsConsistent memory flushed
flushed-IsConsistent =
    commit_flush-IsConsistent memory (index_new memory) 3 (block_a ∷ block_b ∷ []) none
      new-IsConsistent

failed_flush-IsConsistent :
    IsConsistent memory
      (commit_flush memory (index_new memory) 3 (block_a ∷ []) (some other_error)).1
failed_flush-IsConsistent =
    commit_flush-IsConsistent memory (index_new memory) 3 (block_a ∷ []) (some other_error)
      new-IsConsistent

dropped-IsConsistent : IsConsistent memory (drop_blocks memory flushed (bytes "a" ∷ []) none).1
dropped-IsConsistent =
    drop_blocks-IsConsistent memory flushed (bytes "a" ∷ []) none flushed-IsConsistent

lists_t2 :
    block_paths_for_trace memory (drop_blocks memory flushed (bytes "a" ∷ []) none).1 (bytes "t2")
    ≡ bytes "b" ∷ []
unfolding block_paths_for_trace drop_blocks commit_flush index_new
lists_t2 = refl

covers_a :
    (t rel : Text)
    → contains (block_paths_for_trace memory flushed t) rel ≡ true
    → any
        (λ (i : Text × List Text). text_beq i.0 rel)
        ((bytes "a", bytes "t1" ∷ bytes "t2" ∷ []) ∷ [])
      ≡ true
    → any
        (λ (i : Text × List Text). text_beq i.0 rel && contains i.1 t)
        ((bytes "a", bytes "t1" ∷ bytes "t2" ∷ []) ∷ [])
      ≡ true
unfolding block_paths_for_trace commit_flush index_new
covers_a t rel e f = ground arith

commit_merge-IsConsistent_example :
    IsConsistent memory
      (commit_merge memory flushed
        (block (bytes "m") 20 (bytes "t1" ∷ bytes "t2" ∷ []))
        ((bytes "a", bytes "t1" ∷ bytes "t2" ∷ []) ∷ [])
        none).1
commit_merge-IsConsistent_example =
    commit_merge-IsConsistent memory flushed (block (bytes "m") 20 (bytes "t1" ∷ bytes "t2" ∷ []))
      ((bytes "a", bytes "t1" ∷ bytes "t2" ∷ []) ∷ []) none flushed-IsConsistent covers_a

drop_leaves_others :
    (contains
        (all_block_paths memory (drop_blocks memory flushed (bytes "a" ∷ []) none).1)
        (bytes "b")
      ≡ (not (contains (bytes "a" ∷ []) (bytes "b"))
          && contains (all_block_paths memory flushed) (bytes "b")))
    × (contains
          (block_paths_for_trace memory
            (drop_blocks memory flushed (bytes "a" ∷ []) none).1
            (bytes "t2"))
          (bytes "b")
        ≡ (not (contains (bytes "a" ∷ []) (bytes "b"))
            && contains (block_paths_for_trace memory flushed (bytes "t2")) (bytes "b")))
drop_leaves_others = contains-drop_blocks memory flushed (bytes "a" ∷ []) (bytes "t2") (bytes "b")

commit_flush_lem_example :
    (watermark memory (commit_flush memory (index_new memory) 3 (block_a ∷ []) none).1 ≡ 3)
    × (contains
          (all_block_paths memory (commit_flush memory (index_new memory) 3 (block_a ∷ []) none).1)
          (bytes "a")
        ≡ (any (λ (b : BlockMeta). text_beq b.rel_path (bytes "a")) (block_a ∷ [])
            || contains (all_block_paths memory (index_new memory)) (bytes "a")))
    × (contains
          (block_paths_for_trace memory
            (commit_flush memory (index_new memory) 3 (block_a ∷ []) none).1
            (bytes "t1"))
          (bytes "a")
        ≡ (any
              (λ (b : BlockMeta).
                text_beq b.rel_path (bytes "a") && contains b.trace_ids (bytes "t1"))
              (block_a ∷ [])
            || contains (block_paths_for_trace memory (index_new memory) (bytes "t1")) (bytes "a")))
commit_flush_lem_example =
    commit_flush_lem memory (index_new memory) 3 (block_a ∷ []) (bytes "t1") (bytes "a")
