-- ===== src/Index.antt =====
-- src/store/index.rs: the durable index of the cold tier. redb is a parameter: `Redb` holds the
-- operations that the index calls, with what its documentation says of them.
pub mod Listing
pub mod Consistent
pub mod Merged
pub mod Memory
pub mod Examples
use evald.Prelude.{
  ℕ, ◌≡◌, Bool, true, false, ◌&&◌, ◌||◌, not, Option, none, some, List, [], ◌∷◌, ◌++◌, map, Text,
  bytes, text_beq, text_eq, pair_eq, contains, All, length, if◌then◌else◌,
}
use evald.Prelude.Io.{ErrorKind, Outcome, ok, err}
use evald.Model.{is_none}

-- Every value of a multimap with its key, in the order of two nested loops.
abbrev with_key : Text → List Text → List (Text × Text)
with_key key [] = []
with_key key (v ∷ values) = (key, v) ∷ with_key key values

abbrev pub pairs : List (Text × List Text) → List (Text × Text)
pairs [] = []
pairs ((key, values) ∷ rest) = with_key key values ++ pairs rest

-- A table of `&str` to `u64` and a multimap of `&str` to `&str`, as they are read and written
-- within a transaction.
pub record Redb : Type 1 where
  pub Table : Type 0
  pub Multimap : Type 0
  pub new_table : Table
  pub new_multimap : Multimap
  pub get : Text → Table → Option ℕ
  pub insert : Text → ℕ → Table → Table
  pub remove : Text → Table → Table
  pub iter : Table → List (Text × ℕ)
  pub values : Text → Multimap → List Text
  pub insert_value : Text → Text → Multimap → Multimap
  pub remove_value : Text → Text → Multimap → Multimap
  pub iter_values : Multimap → List (Text × List Text)
  pub get-new_table : (k : Text) → get k new_table ≡ none
  pub get-insert :
      (k q : Text) (v : ℕ) (t : Table)
      → get q (insert k v t) ≡ (if text_beq k q then some v else get q t)
  pub get-remove :
      (k q : Text) (t : Table) → get q (remove k t) ≡ (if text_beq k q then none else get q t)
  pub contains-iter :
      (k : Text) (t : Table) → contains (map (λ e. e.0) (iter t)) k ≡ not (is_none (get k t))
  pub get-iter : (t : Table) → All (λ (e : Text × ℕ). get e.0 t ≡ some e.1) (iter t)
  pub values-new_multimap : (k : Text) → values k new_multimap ≡ []
  pub values-insert_value :
      (k q v w : Text) (m : Multimap)
      → contains (values q (insert_value k v m)) w
        ≡ (text_beq k q && text_beq v w || contains (values q m) w)
  pub values-remove_value :
      (k q v w : Text) (m : Multimap)
      → contains (values q (remove_value k v m)) w
        ≡ (not (text_beq k q && text_beq v w) && contains (values q m) w)
  pub contains-iter_values :
      (k v : Text) (m : Multimap)
      → contains (pairs (iter_values m)) (k, v) ≡ contains (values k m) v

-- `BlockMeta` of src/store/cold.rs; `trace_ids` is a `BTreeSet`.
pub record BlockMeta : Type 0 where
  pub rel_path : Text
  pub max_start_unix_nano : ℕ
  pub trace_ids : List Text

abbrev pub watermark_key : Text
watermark_key = bytes "watermark"

abbrev pub or_zero : Option ℕ → ℕ
or_zero none = 0
or_zero (some n) = n

module _ (redb : Redb) where
  open redb use {
    Table, Multimap, new_table, new_multimap, get, insert, remove, iter, values, insert_value,
    remove_value, iter_values,
  }

  pub record Index : Type 0 where
    pub meta : Table
    pub blocks : Table
    pub trace_blocks : Multimap

  -- `Index::open` on a file that does not exist yet.
  unfoldable pub index_new : Index
  index_new = record { meta = new_table; blocks = new_table; trace_blocks = new_multimap }

  -- A write transaction: an error on the way, the commit included, leaves the index as it was.
  abbrev pub transact : Option ErrorKind → Index → Index → Outcome × Index
  transact (some kind) before after = (err kind, before)
  transact none before after = (ok tt, after)

  unfoldable pub watermark : Index → ℕ
  watermark index = or_zero (get watermark_key index.meta)

  -- The loop over `trace_ids`.
  abbrev pub insert_traces : List Text → Text → Multimap → Multimap
  insert_traces [] rel m = m
  insert_traces (t ∷ rest) rel m = insert_traces rest rel (insert_value t rel m)

  -- The loop over `blocks`.
  abbrev pub insert_blocks : List BlockMeta → Index → Index
  insert_blocks [] index = index
  insert_blocks (b ∷ rest) index = insert_blocks rest (record {
    meta = index.meta;
    blocks = insert b.rel_path b.max_start_unix_nano index.blocks;
    trace_blocks = insert_traces b.trace_ids b.rel_path index.trace_blocks;
  })

  unfoldable pub commit_flush : Index → ℕ → List BlockMeta → Option ErrorKind → Outcome × Index
  commit_flush index sealed_seqno blocks failure =
      let after = insert_blocks blocks index in
      transact failure index (record {
        meta = insert watermark_key sealed_seqno after.meta;
        blocks = after.blocks;
        trace_blocks = after.trace_blocks;
      })

  abbrev pub remove_traces : List Text → Text → Multimap → Multimap
  remove_traces [] rel m = m
  remove_traces (t ∷ rest) rel m = remove_traces rest rel (remove_value t rel m)

  -- The loop over the inputs of a merge.
  abbrev pub remove_inputs : List (Text × List Text) → Index → Index
  remove_inputs [] index = index
  remove_inputs ((rel, traces) ∷ rest) index = remove_inputs rest (record {
    meta = index.meta;
    blocks = remove rel index.blocks;
    trace_blocks = remove_traces traces rel index.trace_blocks;
  })

  unfoldable pub commit_merge :
      Index → BlockMeta → List (Text × List Text) → Option ErrorKind → Outcome × Index
  commit_merge index output inputs failure =
      transact failure index (insert_blocks (output ∷ []) (remove_inputs inputs index))

  unfoldable pub block_count : Index → ℕ
  block_count index = length (iter index.blocks)

  unfoldable pub all_block_paths : Index → List Text
  all_block_paths index = map (λ e. e.0) (iter index.blocks)

  unfoldable pub block_paths_for_trace : Index → Text → List Text
  block_paths_for_trace index trace_id = values trace_id index.trace_blocks

  unfoldable pub blocks_with_max_start : Index → List (Text × ℕ)
  blocks_with_max_start index = iter index.blocks

  abbrev pub remove_paths : List Text → Table → Table
  remove_paths [] t = t
  remove_paths (p ∷ rest) t = remove_paths rest (remove p t)

  -- The pairs whose block is dropped.
  abbrev pub stale : List Text → List (Text × Text) → List (Text × Text)
  stale dropping [] = []
  stale dropping ((t, block) ∷ rest) =
      if contains dropping block then (t, block) ∷ stale dropping rest else stale dropping rest

  abbrev pub remove_pairs : List (Text × Text) → Multimap → Multimap
  remove_pairs [] m = m
  remove_pairs ((t, block) ∷ rest) m = remove_pairs rest (remove_value t block m)

  abbrev pub dropped : Index → List Text → Index
  dropped index paths = record {
    meta = index.meta;
    blocks = remove_paths paths index.blocks;
    trace_blocks =
        remove_pairs (stale paths (pairs (iter_values index.trace_blocks))) index.trace_blocks;
  }

  unfoldable pub drop_blocks : Index → List Text → Option ErrorKind → Outcome × Index
  drop_blocks index [] failure = (ok tt, index)
  drop_blocks index (p ∷ rest) failure = transact failure index (dropped index (p ∷ rest))
