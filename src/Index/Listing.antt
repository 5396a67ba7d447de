-- ===== src/Index/Listing.antt =====
-- What the index lists for a trace, and which blocks it holds, after each of its transactions.
use evald.Prelude.{
  ◌≡◌, refl, ◌∙◌, Bool, ◌&&◌, ◌||◌, not, any, List, [], ◌∷◌, Text, text_beq, text_beq_iff, text_eq,
  pair_eq, contains, arith,
}
use evald.Model.{is_none}
use evald.Index.{
  Redb, BlockMeta, Index, pairs, insert_traces, insert_blocks, remove_traces, remove_inputs,
  remove_paths, stale, remove_pairs, dropped,
}

module _ (redb : Redb) where
  open redb use {
    Table, Multimap, get, insert, remove, values, insert_value, remove_value, iter_values,
    get-insert, get-remove, contains-iter, values-insert_value, values-remove_value,
    contains-iter_values,
  }

  -- Whether the index holds a block, and whether it lists the block for a trace.
  abbrev pub holds : Index redb → Text → Bool
  holds index rel = not (is_none (get rel index.blocks))

  abbrev pub lists : Index redb → Text → Text → Bool
  lists index t rel = contains (values t index.trace_blocks) rel

  values-insert_traces :
      (traces : List Text) (rel : Text) (m : Multimap) (q w : Text)
      → contains (values q (insert_traces redb traces rel m)) w
        ≡ (text_beq rel w && contains traces q || contains (values q m) w)
  values-insert_traces [] rel m q w = ground arith
  values-insert_traces (t ∷ traces) rel m q w =
      values-insert_traces traces rel (insert_value t rel m) q w
      ∙ ground (arith, values-insert_value t q rel w m)

  pub lists-insert_blocks :
      (blocks : List BlockMeta) (index : Index redb) (t rel : Text)
      → lists (insert_blocks redb blocks index) t rel ≡ (
          any (λ (b : BlockMeta). text_beq b.rel_path rel && contains b.trace_ids t) blocks
          || lists index t rel)
  lists-insert_blocks [] index t rel = refl
  lists-insert_blocks (b ∷ blocks) index t rel =
      lists-insert_blocks blocks _ t rel
      ∙ ground (arith, values-insert_traces b.trace_ids b.rel_path index.trace_blocks t rel)

  pub holds-insert_blocks :
      (blocks : List BlockMeta) (index : Index redb) (rel : Text)
      → holds (insert_blocks redb blocks index) rel
        ≡ (any (λ (b : BlockMeta). text_beq b.rel_path rel) blocks || holds index rel)
  holds-insert_blocks [] index rel = refl
  holds-insert_blocks (b ∷ blocks) index rel =
      holds-insert_blocks blocks _ rel
      ∙ ground (arith, get-insert b.rel_path rel b.max_start_unix_nano index.blocks)

  values-remove_traces :
      (traces : List Text) (rel : Text) (m : Multimap) (q w : Text)
      → contains (values q (remove_traces redb traces rel m)) w
        ≡ (not (text_beq rel w && contains traces q) && contains (values q m) w)
  values-remove_traces [] rel m q w = ground arith
  values-remove_traces (t ∷ traces) rel m q w =
      values-remove_traces traces rel (remove_value t rel m) q w
      ∙ ground (arith, values-remove_value t q rel w m)

  pub lists-remove_inputs :
      (inputs : List (Text × List Text)) (index : Index redb) (t rel : Text)
      → lists (remove_inputs redb inputs index) t rel ≡ (
          not (any (λ (i : Text × List Text). text_beq i.0 rel && contains i.1 t) inputs)
          && lists index t rel)
  lists-remove_inputs [] index t rel = refl
  lists-remove_inputs ((p, traces) ∷ inputs) index t rel =
      lists-remove_inputs inputs _ t rel
      ∙ ground (arith, values-remove_traces traces p index.trace_blocks t rel)

  pub holds-remove_inputs :
      (inputs : List (Text × List Text)) (index : Index redb) (rel : Text)
      → holds (remove_inputs redb inputs index) rel
        ≡ (not (any (λ (i : Text × List Text). text_beq i.0 rel) inputs) && holds index rel)
  holds-remove_inputs [] index rel = refl
  holds-remove_inputs ((p, traces) ∷ inputs) index rel =
      holds-remove_inputs inputs _ rel ∙ ground (arith, get-remove p rel index.blocks)

  holds-remove_paths :
      (paths : List Text) (t : Table) (rel : Text)
      → is_none (get rel (remove_paths redb paths t)) ≡ (contains paths rel || is_none (get rel t))
  holds-remove_paths [] t rel = refl
  holds-remove_paths (p ∷ paths) t rel =
      holds-remove_paths paths (remove p t) rel ∙ ground (arith, get-remove p rel t)

  contains-stale :
      (dropping : List Text) (l : List (Text × Text)) (t rel : Text)
      → contains (stale redb dropping l) (t, rel) ≡ (contains dropping rel && contains l (t, rel))
  contains-stale dropping [] t rel = ground arith
  contains-stale dropping ((u, p) ∷ l) t rel =
      ground (arith, contains-stale dropping l t rel, text_beq_iff p rel)

  values-remove_pairs :
      (l : List (Text × Text)) (m : Multimap) (t rel : Text)
      → contains (values t (remove_pairs redb l m)) rel
        ≡ (not (contains l (t, rel)) && contains (values t m) rel)
  values-remove_pairs [] m t rel = refl
  values-remove_pairs ((u, p) ∷ l) m t rel =
      values-remove_pairs l (remove_value u p m) t rel
      ∙ ground (arith, values-remove_value u t p rel m)

  pub lists-dropped :
      (index : Index redb) (paths : List Text) (t rel : Text)
      → lists (dropped redb index paths) t rel ≡ (not (contains paths rel) && lists index t rel)
  lists-dropped index paths t rel =
      values-remove_pairs (stale redb paths (pairs (iter_values index.trace_blocks)))
        index.trace_blocks t rel
      ∙ ground (
        arith,
        contains-stale paths (pairs (iter_values index.trace_blocks)) t rel,
        contains-iter_values t rel index.trace_blocks,
      )

  pub holds-dropped :
      (index : Index redb) (paths : List Text) (rel : Text)
      → holds (dropped redb index paths) rel ≡ (not (contains paths rel) && holds index rel)
  holds-dropped index paths rel = ground (arith, holds-remove_paths paths index.blocks rel)
