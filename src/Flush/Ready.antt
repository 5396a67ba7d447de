-- ===== src/Flush/Ready.antt =====
-- What a flush needs of the state, and that it leaves it so.
use evald.Prelude.{
  ℕ, ◌^◌, ◌≤◌, ◌<◌, ◌≡◌, ◌⊎◌, refl, sym, ap, ◌∙◌, Bool, true, false, Option, none, some, List, [],
  ◌∷◌, map, Text, bytes, ends_with, text_eq, nat_eq, nat_beq, contains, IsDistinct, length, arith,
  Bool-cases, inl, inr,
}
use evald.Prelude.Io.{ErrorKind, Result, ok, err}
use evald.Prelude.Maps.{Map, nat_less, text_less, delete, keys, keys-delete}
use evald.Model.{NormalizedSpan}
use evald.Hot.{HotTier, segment, drop_segment, or_default}
use evald.Hot.Laws.{segment-drop_segment}
use evald.Index.{Redb, BlockMeta, Index, watermark, all_block_paths, commit_flush}
use evald.Index.Consistent.{commit_flush_lem}
use evald.Prelude.Copies.{first_copies}
use evald.Key.{key_eq}
use evald.Flush.{
  by_partition, Chrono, Files, Faults, Shared, write_blocks, truncate, after_commit, after_blocks,
  flush_segment, flush_one, with_files, with_index,
}
use evald.Flush.Written.{targets, write_blocks-Held}
use evald.Flush.Names.{name_seqno, targets-IsDistinct, name_seqno-targets, targets_published}
use evald.Flush.Cold.{groups_of, paths_of, IsFresh, any_path}

never : ◌≡◌ {A = Bool} false true → ⊥
never h = cc

-- Numbers in ascending order, all above a bound.
abbrev pub Ascends : ℕ → List ℕ → Type 0
Ascends above [] = Unit
Ascends above (n ∷ rest) = (above < n) × Ascends n rest

pub Ascends-weaken : (a b : ℕ) (l : List ℕ) → a ≤ b → Ascends b l → Ascends a l
Ascends-weaken a b [] le h = tt
Ascends-weaken a b (n ∷ rest) le h = (omega (arith, h.0), h.1)

-- The segments of the hot tier in ascending order, as the map keeps them.
abbrev pub IsAscending : List ℕ → Type 0
IsAscending [] = Unit
IsAscending (n ∷ rest) = Ascends n rest

Ascends-delete :
    (above n : ℕ) (m : Map ℕ (List NormalizedSpan))
    → Ascends above (keys m)
    → Ascends above (keys (delete n m))
Ascends-delete above n [] h = tt
Ascends-delete above n ((j, v) ∷ m) h = elim (Bool-cases (nat_beq j n)) [
  | inl e ↦
      rw e
        (Ascends-weaken above j (keys (delete n m)) (omega (arith, h.0)) (Ascends-delete j n m h.1))
  | inr e ↦ rw e (h.0, Ascends-delete j n m h.1)
]

delete-IsAscending :
    (n : ℕ) (m : Map ℕ (List NormalizedSpan))
    → IsAscending (keys m)
    → IsAscending (keys (delete n m))
delete-IsAscending n [] h = tt
delete-IsAscending n ((j, v) ∷ m) h = elim (Bool-cases (nat_beq j n)) [
  | inl e ↦ rw e (of_Ascends j (keys (delete n m)) (Ascends-delete j n m h))
  | inr e ↦ rw e (Ascends-delete j n m h)
]
  where
    of_Ascends : (a : ℕ) (l : List ℕ) → Ascends a l → IsAscending l
    of_Ascends a [] h = tt
    of_Ascends a (x ∷ l) h = h.1

delete-IsDistinct :
    (n : ℕ) (m : Map ℕ (List NormalizedSpan)) → IsDistinct (keys m) → IsDistinct (keys (delete n m))
delete-IsDistinct n [] h = tt
delete-IsDistinct n ((j, v) ∷ m) h = elim (Bool-cases (nat_beq j n)) [
  | inl e ↦ rw e (delete-IsDistinct n m h.1)
  | inr e ↦ rw e (ground (arith, keys-delete n j m, h.0), delete-IsDistinct n m h.1)
]

module _ (redb : Redb) (chrono : Chrono) where
  -- No block of the index is named for a segment above the watermark, or as a temporary file.
  abbrev pub IsNamed : Index redb → Type 0
  IsNamed index =
      (p : Text)
      → contains (all_block_paths redb index) p ≡ true
      → (name_seqno p ≤ watermark redb index) × (ends_with p (bytes ".tmp") ≡ false)

  -- The numbers of the segments, and of the partitions of each, are of 64 bits.
  abbrev pub IsNumbered : HotTier → Type 0
  IsNumbered hot =
      (n : ℕ) (spans : List NormalizedSpan)
      → segment hot n ≡ some spans
      → (n < 2 ^ 64) × (length (groups_of redb chrono spans) ≤ 2 ^ 64)

  pub record IsReady (index : Index redb) (hot : HotTier) : Type 0 where
    pub distinct : IsDistinct (keys hot.segments)
    pub ascending : IsAscending (keys hot.segments)
    pub is_named : IsNamed index
    pub is_numbered : IsNumbered hot

  segment-IsFresh :
      (index : Index redb) (hot : HotTier) (seqno : ℕ) (o : Option (List NormalizedSpan))
      → IsReady index hot
      → watermark redb index < seqno
      → segment hot seqno ≡ o
      → IsFresh redb chrono index (targets seqno 0 (groups_of redb chrono (or_default o)))
  unfolding by_partition first_copies
  segment-IsFresh index hot seqno none ready above e = (tt, λ p h. absurd (never h))
  segment-IsFresh index hot seqno (some spans) ready above e =
      let (fits, room) = ready.is_numbered seqno spans e in
      (
        targets-IsDistinct seqno 0 (groups_of redb chrono spans) fits (omega arith),
        λ p h. elim (Bool-cases (contains (all_block_paths redb index) p)) [
          | inl held ↦ absurd (
              omega (
                arith,
                (ready.is_named p held).0,
                name_seqno-targets seqno (groups_of redb chrono spans) p fits room h,
              ))
          | inr free ↦ free
        ],
      )

  -- The paths of a flush's blocks are distinct and new to the index.
  pub paths_of-IsFresh :
      (st : Shared redb chrono) (seqno : ℕ)
      → IsReady st.index st.hot
      → watermark redb st.index < seqno
      → IsFresh redb chrono st.index (paths_of redb chrono st seqno)
  paths_of-IsFresh st seqno ready above =
      segment-IsFresh st.index st.hot seqno (segment st.hot seqno) ready above refl

  commit_flush-IsNamed :
      (index : Index redb) (seqno : ℕ) (groups : Map Text (List NormalizedSpan))
      (blocks : List BlockMeta)
      → IsNamed index
      → watermark redb index < seqno
      → seqno < 2 ^ 64
      → length groups ≤ 2 ^ 64
      → map (λ (b : BlockMeta). b.rel_path) blocks ≡ targets seqno 0 groups
      → IsNamed (commit_flush redb index seqno blocks none).1
  commit_flush-IsNamed index seqno groups blocks is_named above fits room paths p held =
      let listing = commit_flush_lem redb index seqno blocks p p in
      let of_flush = any_path redb chrono blocks p ∙ ap (λ (l : List Text). contains l p) paths in
      elim (Bool-cases (contains (targets seqno 0 groups) p)) [
        | inl new ↦ (
          omega (arith, listing.0, name_seqno-targets seqno groups p fits room new),
          targets_published seqno 0 groups p new,
        )
        | inr old ↦
            let (below, final) = is_named p (ground (arith, listing.1, of_flush, old, held)) in
            (omega (arith, listing.0, below), final)
      ]

  of_dropped :
      (hot : HotTier) (seqno n : ℕ) (spans : List NormalizedSpan)
      → segment (drop_segment hot seqno) n ≡ some spans
      → segment hot n ≡ some spans
  of_dropped hot seqno n spans e = elim (Bool-cases (nat_beq seqno n)) [
    | inl same ↦ let law = segment-drop_segment hot seqno n in cc (sym (rw same at law) ∙ e)
    | inr differs ↦ let law = segment-drop_segment hot seqno n in sym (rw differs at law) ∙ e
  ]

  drop_segment-IsReady :
      (index : Index redb) (hot : HotTier) (seqno : ℕ)
      → IsReady index hot
      → IsReady index (drop_segment hot seqno)
  drop_segment-IsReady index hot seqno ready = record {
    distinct = unfold drop_segment in delete-IsDistinct seqno hot.segments ready.distinct;
    ascending = unfold drop_segment in delete-IsAscending seqno hot.segments ready.ascending;
    is_named = ready.is_named;
    is_numbered = λ n spans e. ready.is_numbered n spans (of_dropped hot seqno n spans e);
  }

  -- The watermark after a flush is the old one or the segment.
  abbrev Advances : ℕ → Index redb → Shared redb chrono → Type 0
  Advances seqno index after =
      IsReady after.index after.hot
      × ((watermark redb after.index ≡ watermark redb index) ⊎ (watermark redb after.index ≡ seqno))

  truncate-Advances :
      (failure : Option ErrorKind) (st : Shared redb chrono) (index : Index redb) (seqno : ℕ)
      → Advances seqno index st
      → Advances seqno index (truncate redb chrono failure st seqno).1
  truncate-Advances (some kind) st index seqno h = h
  truncate-Advances none st index seqno h = (drop_segment-IsReady st.index st.hot seqno h.0, h.1)

  after_commit-Advances :
      (failure : Option ErrorKind) (faults : Faults) (st : Shared redb chrono) (files : Files)
      (seqno : ℕ) (spans : List NormalizedSpan) (blocks : List BlockMeta)
      → IsReady st.index st.hot
      → watermark redb st.index < seqno
      → segment st.hot seqno ≡ some spans
      → map (λ (b : BlockMeta). b.rel_path) blocks ≡ targets seqno 0 (groups_of redb chrono spans)
      → Advances seqno st.index
          (after_commit redb chrono faults seqno
            (with_files redb chrono st files)
            (commit_flush redb st.index seqno blocks failure)).1
  unfolding commit_flush
  after_commit-Advances (some kind) faults st files seqno spans blocks ready above e paths =
      (ready, inl refl)
  after_commit-Advances none faults st files seqno spans blocks ready above e paths =
      let (fits, room) = ready.is_numbered seqno spans e in
      let index' = (commit_flush redb st.index seqno blocks none).1 in
      truncate-Advances faults.delete
        (with_index redb chrono (with_files redb chrono st files) index') st.index seqno
        (
          record {
            distinct = ready.distinct;
            ascending = ready.ascending;
            is_named =
                commit_flush-IsNamed st.index seqno (groups_of redb chrono spans) blocks
                  ready.is_named above fits room paths;
            is_numbered = ready.is_numbered;
          },
          inr (commit_flush_lem redb st.index seqno blocks [] []).0,
        )

  after_blocks-Advances :
      (faults : Faults) (st : Shared redb chrono) (seqno : ℕ) (spans : List NormalizedSpan)
      (r : Result (List BlockMeta) × Files)
      → IsReady st.index st.hot
      → watermark redb st.index < seqno
      → segment st.hot seqno ≡ some spans
      → ((blocks : List BlockMeta)
          → r.0 ≡ ok blocks
          → map (λ (b : BlockMeta). b.rel_path) blocks
            ≡ targets seqno 0 (groups_of redb chrono spans))
      → Advances seqno st.index (after_blocks redb chrono faults seqno st r).1
  after_blocks-Advances faults st seqno spans (err kind, files) ready above e paths =
      (ready, inl refl)
  after_blocks-Advances faults st seqno spans (ok blocks, files) ready above e paths =
      after_commit-Advances faults.commit faults st files seqno spans blocks ready above e
        (paths blocks refl)

  flush_segment-Advances :
      (faults : Faults) (st : Shared redb chrono) (seqno : ℕ) (o : Option (List NormalizedSpan))
      → IsReady st.index st.hot
      → watermark redb st.index < seqno
      → segment st.hot seqno ≡ o
      → Advances seqno st.index (flush_segment redb chrono faults seqno st o).1
  flush_segment-Advances faults st seqno none ready above e = (ready, inl refl)
  flush_segment-Advances faults st seqno (some spans) ready above e =
      let fresh = segment-IsFresh st.index st.hot seqno (some spans) ready above e in
      after_blocks-Advances faults st seqno spans
        (write_blocks st.files seqno 0 faults.publish (groups_of redb chrono spans)) ready above e
        (λ blocks h.
          (write_blocks-Held (groups_of redb chrono spans) st.files seqno 0 faults.publish blocks
            fresh.0 h).0)

  -- A flush leaves the state ready for the next one, wherever it stops.
  pub flush_one-IsReady :
      (faults : Faults) (st : Shared redb chrono) (seqno : ℕ)
      → IsReady st.index st.hot
      → watermark redb st.index < seqno
      → (let after = (flush_one redb chrono faults st seqno).1 in
          IsReady after.index after.hot × (watermark redb after.index ≤ seqno))
  unfolding flush_one
  flush_one-IsReady faults st seqno ready above =
      let (still, mark) =
        flush_segment-Advances faults st seqno (segment st.hot seqno) ready above refl in
      (still, elim mark [ inl same ↦ omega arith | inr advanced ↦ omega arith ])
