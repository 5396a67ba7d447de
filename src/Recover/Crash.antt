-- ===== src/Recover/Crash.antt =====
-- A crash in the middle of a flush.
use evald.Prelude.{
  ℕ, ◌≡◌, ◌↔◌, ◌⊎◌, refl, ◌∙◌, true, false, Option, none, some, List, map, Text, nat_eq, text_eq,
  contains, IsDistinct, inl, inr,
}
use evald.Prelude.Io.{ErrorKind, Result, ok, err}
use evald.Prelude.Maps.{nat_less, text_less, get, get-delete}
use evald.Model.{NormalizedSpan}
use evald.Key.{SpanKey, key_eq}
use evald.Hot.{segment, or_default}
use evald.Index.{Redb, BlockMeta, commit_flush}
use evald.Query.Distinct.{identities}
use evald.Wal.{Codec, list_segment_seqnos, delete_segment}
use evald.Flush.{
  Chrono, Files, Faults, Shared, write_blocks, after_commit, after_blocks, flush_segment, flush_one,
  with_files, with_index, truncate,
}
use evald.Flush.Cold.{
  InCold, Stored, groups_of, paths_of, IsFresh, InCold-files, InCold-commit_flush,
}
use evald.Flush.Written.{targets, Held, write_blocks-other, write_blocks-Held}
use evald.Recover.{open_store}
use evald.Recover.Reopen.{Durable, open_store-Durable}
use evald.Recover.Commit.{Logged, Kept, committed-Durable}

module _ (redb : Redb) (chrono : Chrono) (codec : Codec) where
  truncate-Durable :
      (failure : Option ErrorKind) (st : Shared redb chrono) (files : Files) (seqno : ℕ)
      (spans : List NormalizedSpan) (blocks : List BlockMeta) (k : SpanKey)
      → Logged redb chrono codec st seqno
      → segment st.hot seqno ≡ some spans
      → (InCold redb chrono st.index st.files k ⊎ (contains (identities spans) k ≡ true))
        ↔ InCold redb chrono (commit_flush redb st.index seqno blocks none).1 files k
      → Kept redb chrono codec st
          (truncate redb chrono failure
            (with_index redb chrono
              (with_files redb chrono st files)
              (commit_flush redb st.index seqno blocks none).1)
            seqno).1
          k
  truncate-Durable (some kind) st files seqno spans blocks k logs_it e cold =
      committed-Durable redb chrono codec st seqno spans blocks st.wal_dir files k logs_it e
        (λ n h. refl) cold
  truncate-Durable none st files seqno spans blocks k logs_it e cold =
      committed-Durable redb chrono codec st seqno spans blocks (delete_segment st.wal_dir seqno)
        files k logs_it e
        (unfold delete_segment in λ n h. get-delete seqno n st.wal_dir ∙ rw h refl) cold

  -- A failure before the commit changes no indexed file.
  unindexed-Durable :
      (st : Shared redb chrono) (files : Files) (paths : List Text) (k : SpanKey)
      → IsFresh redb chrono st.index paths
      → ((p : Text) → contains paths p ≡ false → get p files ≡ get p st.files)
      → Kept redb chrono codec st (with_files redb chrono st files) k
  unindexed-Durable st files paths k fresh same =
      let (forth, back) = InCold-files redb chrono st.index st.files files paths k fresh same in
      (
        λ h. elim h [ inl log ↦ inl log | inr cold ↦ inr (forth cold) ],
        λ h. elim h [ inl log ↦ inl log | inr cold ↦ inr (back cold) ],
      )

  after_commit-Durable :
      (failure : Option ErrorKind) (faults : Faults) (st : Shared redb chrono) (files : Files)
      (seqno : ℕ) (spans : List NormalizedSpan) (blocks : List BlockMeta) (k : SpanKey)
      → Logged redb chrono codec st seqno
      → segment st.hot seqno ≡ some spans
      → IsFresh redb chrono st.index (targets seqno 0 (groups_of redb chrono spans))
      → ((p : Text)
          → contains (targets seqno 0 (groups_of redb chrono spans)) p ≡ false
          → get p files ≡ get p st.files)
      → map (λ (b : BlockMeta). b.rel_path) blocks ≡ targets seqno 0 (groups_of redb chrono spans)
      → Held files seqno 0 (groups_of redb chrono spans)
      → Kept redb chrono codec st
          (after_commit redb chrono faults seqno
            (with_files redb chrono st files)
            (commit_flush redb st.index seqno blocks failure)).1
          k
  unfolding commit_flush
  after_commit-Durable (some kind) faults st files seqno spans blocks k logs_it e fresh same named
        held =
      unindexed-Durable st files (targets seqno 0 (groups_of redb chrono spans)) k fresh same
  after_commit-Durable none faults st files seqno spans blocks k logs_it e fresh same named held =
      truncate-Durable faults.delete st files seqno spans blocks k logs_it e (
        InCold-commit_flush redb chrono st.index st.files files seqno spans blocks k fresh same
          named held)

  after_blocks-Durable :
      (faults : Faults) (st : Shared redb chrono) (seqno : ℕ) (spans : List NormalizedSpan)
      (r : Result (List BlockMeta) × Files) (k : SpanKey)
      → Logged redb chrono codec st seqno
      → segment st.hot seqno ≡ some spans
      → IsFresh redb chrono st.index (targets seqno 0 (groups_of redb chrono spans))
      → ((p : Text)
          → contains (targets seqno 0 (groups_of redb chrono spans)) p ≡ false
          → get p r.1 ≡ get p st.files)
      → ((blocks : List BlockMeta)
          → r.0 ≡ ok blocks
          → (map (λ (b : BlockMeta). b.rel_path) blocks
              ≡ targets seqno 0 (groups_of redb chrono spans))
            × Held r.1 seqno 0 (groups_of redb chrono spans))
      → Kept redb chrono codec st (after_blocks redb chrono faults seqno st r).1 k
  after_blocks-Durable faults st seqno spans (err kind, files) k logs_it e fresh same written =
      unindexed-Durable st files (targets seqno 0 (groups_of redb chrono spans)) k fresh same
  after_blocks-Durable faults st seqno spans (ok blocks, files) k logs_it e fresh same written =
      let (named, held) = written blocks refl in
      after_commit-Durable faults.commit faults st files seqno spans blocks k logs_it e fresh same
        named held

  flush_segment-Durable :
      (faults : Faults) (st : Shared redb chrono) (seqno : ℕ) (o : Option (List NormalizedSpan))
      (k : SpanKey)
      → Logged redb chrono codec st seqno
      → segment st.hot seqno ≡ o
      → IsFresh redb chrono st.index (targets seqno 0 (groups_of redb chrono (or_default o)))
      → Kept redb chrono codec st (flush_segment redb chrono faults seqno st o).1 k
  flush_segment-Durable faults st seqno none k logs_it e fresh = (λ h. h, λ h. h)
  flush_segment-Durable faults st seqno (some spans) k logs_it e fresh =
      let groups = groups_of redb chrono spans in
      after_blocks-Durable faults st seqno spans
        (write_blocks st.files seqno 0 faults.publish groups) k logs_it e fresh
        (λ p h. write_blocks-other groups st.files seqno 0 faults.publish p h)
        (λ blocks h. write_blocks-Held groups st.files seqno 0 faults.publish blocks fresh.0 h)

  -- Say the log holds the segment `seqno` as the hot tier does, and holds nothing between the
  -- watermark and it. If the process dies in the middle of flushing that segment, between any two
  -- of its steps or in a step that fails, opening the store again ends and finds, in the two tiers,
  -- exactly the identities that the disk held before the flush. The paths of the flushed blocks are
  -- distinct and new to the index, and the log directory lists no segment twice.
  pub open_store-flush_one :
      (faults : Faults) (st : Shared redb chrono) (seqno : ℕ)
      → Logged redb chrono codec st seqno
      → IsFresh redb chrono st.index (paths_of redb chrono st seqno)
      → IsDistinct (list_segment_seqnos (flush_one redb chrono faults st seqno).1.wal_dir)
      → (st' : Shared redb chrono) × (open_store redb chrono codec
            (flush_one redb chrono faults st seqno).1.wal_dir
            (flush_one redb chrono faults st seqno).1.index
            (flush_one redb chrono faults st seqno).1.files
          ≡ some st')
        × ((k : SpanKey)
            → Durable redb chrono codec st.wal_dir st.index st.files k ↔ Stored redb chrono st' k)
  open_store-flush_one faults st seqno logs_it fresh distinct =
      let after = (flush_one redb chrono faults st seqno).1 in
      let (st', e, found, _) =
        open_store-Durable redb chrono codec after.wal_dir after.index after.files distinct in
      (
        st',
        e,
        λ k.
            let (keeps, kept) : Kept redb chrono codec st after k =
              unfold flush_one in
              flush_segment-Durable faults st seqno (segment st.hot seqno) k logs_it refl fresh in
            let (there, here) = found k in (λ h. there (keeps h), λ h. kept (here h)),
      )
