-- ===== src/Flush/Keeps.antt =====
-- What a flush does to the identities that readers see.
use evald.Prelude.{
  ℕ, ◌≡◌, ◌↔◌, refl, ◌∙◌, true, false, ◌||◌, Option, none, some, List, map, Text, text_eq, nat_eq,
  contains, IsDistinct, arith, Bool-cases, inl, inr,
}
use evald.Prelude.Io.{ErrorKind, Result, ok, err}
use evald.Prelude.Maps.{text_less, nat_less, get, keys}
use evald.Model.{NormalizedSpan}
use evald.Key.{SpanKey, key_eq}
use evald.Hot.{HotTier, segment, drop_segment, all_spans, or_default}
use evald.Index.{Redb, BlockMeta, commit_flush}
use evald.Query.Distinct.{identities}
use evald.Flush.{
  Chrono, Files, Faults, Shared, write_blocks, after_blocks, flush_segment, flush_one, with_files,
  with_index, truncate, after_commit,
}
use evald.Flush.Written.{targets, write_blocks-other, Held, write_blocks-Held}
use evald.Flush.Cold.{
  contains-drop_segment, InCold, Stored, groups_of, paths_of, IsFresh, InCold-files,
  InCold-commit_flush,
}

module _ (redb : Redb) (chrono : Chrono) where
  -- A flushed segment's spans are resident before it is dropped.
  resident :
      (hot : HotTier) (seqno : ℕ) (spans : List NormalizedSpan) (k : SpanKey)
      → IsDistinct (keys hot.segments)
      → segment hot seqno ≡ some spans
      → contains (identities spans) k ≡ true
      → contains (identities (all_spans hot)) k ≡ true
  resident hot seqno spans k distinct e h =
      contains-drop_segment hot seqno k distinct ∙ rw e (ground (arith, h))

  truncate-Stored :
      (failure : Option ErrorKind) (st : Shared redb chrono) (seqno : ℕ)
      (spans : List NormalizedSpan) (k : SpanKey)
      → IsDistinct (keys st.hot.segments)
      → segment st.hot seqno ≡ some spans
      → (contains (identities spans) k ≡ true → InCold redb chrono st.index st.files k)
      → Stored redb chrono st k ↔ Stored redb chrono (truncate redb chrono failure st seqno).1 k
  truncate-Stored (some kind) st seqno spans k distinct e cold = (λ h. h, λ h. h)
  truncate-Stored none st seqno spans k distinct e cold = (forth, back)
    where
      split : contains (identities (all_spans st.hot)) k ≡ (
          contains (identities spans) k
          || contains (identities (all_spans (drop_segment st.hot seqno))) k)
      split = contains-drop_segment st.hot seqno k distinct ∙ rw e refl

      forth : Stored redb chrono st k → Stored redb chrono (truncate redb chrono none st seqno).1 k
      forth (inr h) = inr h
      forth (inl h) = elim (Bool-cases (contains (identities spans) k)) [
        | inl flushed ↦ inr (cold flushed)
        | inr other ↦ inl (ground (arith, split))
      ]

      back : Stored redb chrono (truncate redb chrono none st seqno).1 k → Stored redb chrono st k
      back (inr h) = inr h
      back (inl h) = inl (ground (arith, split))

  after_commit-Stored :
      (failure : Option ErrorKind) (faults : Faults) (st : Shared redb chrono) (files : Files)
      (seqno : ℕ) (spans : List NormalizedSpan) (blocks : List BlockMeta) (k : SpanKey)
      → IsDistinct (keys st.hot.segments)
      → segment st.hot seqno ≡ some spans
      → IsFresh redb chrono st.index (targets seqno 0 (groups_of redb chrono spans))
      → ((p : Text)
          → contains (targets seqno 0 (groups_of redb chrono spans)) p ≡ false
          → get p files ≡ get p st.files)
      → map (λ (b : BlockMeta). b.rel_path) blocks ≡ targets seqno 0 (groups_of redb chrono spans)
      → Held files seqno 0 (groups_of redb chrono spans)
      → Stored redb chrono st k
        ↔ Stored redb chrono
            (after_commit redb chrono faults seqno
              (with_files redb chrono st files)
              (commit_flush redb st.index seqno blocks failure)).1
            k
  unfolding commit_flush
  after_commit-Stored (some kind) faults st files seqno spans blocks k distinct e fresh same named
        held =
      let (forth, back) =
        InCold-files redb chrono st.index st.files files
          (targets seqno 0 (groups_of redb chrono spans)) k fresh same in
      (
        λ h. elim h [ inl hot ↦ inl hot | inr cold ↦ inr (forth cold) ],
        λ h. elim h [ inl hot ↦ inl hot | inr cold ↦ inr (back cold) ],
      )
  after_commit-Stored none faults st files seqno spans blocks k distinct e fresh same named held =
      let index' = (commit_flush redb st.index seqno blocks none).1 in
      let st' = with_index redb chrono (with_files redb chrono st files) index' in
      let (forth, back) =
        InCold-commit_flush redb chrono st.index st.files files seqno spans blocks k fresh same
          named held in
      let (keeps, kept) =
        truncate-Stored faults.delete st' seqno spans k distinct e (λ h. forth (inr h)) in
      (
        λ h. keeps (elim h [ inl hot ↦ inl hot | inr cold ↦ inr (forth (inl cold)) ]),
        λ h. elim (kept h) [
          | inl hot ↦ inl hot
          | inr cold ↦ elim (back cold) [
            | inl old ↦ inr old
            | inr flushed ↦ inl (resident st.hot seqno spans k distinct e flushed)
          ]
        ],
      )

  after_blocks-Stored :
      (faults : Faults) (st : Shared redb chrono) (seqno : ℕ) (spans : List NormalizedSpan)
      (r : Result (List BlockMeta) × Files) (k : SpanKey)
      → IsDistinct (keys st.hot.segments)
      → segment st.hot seqno ≡ some spans
      → IsFresh redb chrono st.index (targets seqno 0 (groups_of redb chrono spans))
      → ((p : Text)
          → contains (targets seqno 0 (groups_of redb chrono spans)) p ≡ false
          → get p r.1 ≡ get p st.files)
      → ((blocks : List BlockMeta)
          → r.0 ≡ ok blocks
          → (map (λ (b : BlockMeta). b.rel_path) blocks
              ≡ targets seqno 0 (groups_of redb chrono spans))
            × Held r.1 seqno 0 (groups_of redb chrono spans))
      → Stored redb chrono st k
        ↔ Stored redb chrono (after_blocks redb chrono faults seqno st r).1 k
  after_blocks-Stored faults st seqno spans (err kind, files) k distinct e fresh same written =
      let (forth, back) =
        InCold-files redb chrono st.index st.files files
          (targets seqno 0 (groups_of redb chrono spans)) k fresh same in
      (
        λ h. elim h [ inl hot ↦ inl hot | inr cold ↦ inr (forth cold) ],
        λ h. elim h [ inl hot ↦ inl hot | inr cold ↦ inr (back cold) ],
      )
  after_blocks-Stored faults st seqno spans (ok blocks, files) k distinct e fresh same written =
      let (named, held) = written blocks refl in
      after_commit-Stored faults.commit faults st files seqno spans blocks k distinct e fresh same
        named held

  flush_segment-Stored :
      (faults : Faults) (st : Shared redb chrono) (seqno : ℕ) (o : Option (List NormalizedSpan))
      (k : SpanKey)
      → IsDistinct (keys st.hot.segments)
      → segment st.hot seqno ≡ o
      → IsFresh redb chrono st.index (targets seqno 0 (groups_of redb chrono (or_default o)))
      → Stored redb chrono st k
        ↔ Stored redb chrono (flush_segment redb chrono faults seqno st o).1 k
  flush_segment-Stored faults st seqno none k distinct e fresh = (λ h. h, λ h. h)
  flush_segment-Stored faults st seqno (some spans) k distinct e fresh =
      after_blocks-Stored faults st seqno spans
        (write_blocks st.files seqno 0 faults.publish (groups_of redb chrono spans)) k distinct e
        fresh
        (λ p h.
          write_blocks-other (groups_of redb chrono spans) st.files seqno 0 faults.publish p h)
        (λ blocks h.
          write_blocks-Held (groups_of redb chrono spans) st.files seqno 0 faults.publish blocks
            fresh.0 h)

  -- Wherever a flush of one segment stops, at a block that cannot be written, at the commit, at the
  -- removal of the log segment, or nowhere, the two tiers together hold the identities that they
  -- held before, no more and no fewer. The paths of its blocks are distinct and new to the index, and the
  -- hot tier holds no segment number twice.
  pub flush_one-Stored :
      (faults : Faults) (st : Shared redb chrono) (seqno : ℕ) (k : SpanKey)
      → IsDistinct (keys st.hot.segments)
      → IsFresh redb chrono st.index (paths_of redb chrono st seqno)
      → Stored redb chrono st k ↔ Stored redb chrono (flush_one redb chrono faults st seqno).1 k
  unfolding flush_one
  flush_one-Stored faults st seqno k distinct fresh =
      flush_segment-Stored faults st seqno (segment st.hot seqno) k distinct refl fresh
