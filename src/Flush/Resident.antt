-- ===== src/Flush/Resident.antt =====
-- Which segments stay in the hot tier behind a flush pass.
use mathlib.Core.Path.{subst}
use evald.Prelude.{
  ℕ, ◌≡◌, refl, ◌∙◌, sym, false, ◌&&◌, Option, none, some, List, [], ◌∷◌, nat_eq, nat_beq, contains,
  contains-keep, ltb, arith, inl, inr,
}
use evald.Prelude.Io.{ErrorKind, Result, Outcome, ok, err, Result-cases}
use evald.Prelude.Maps.{nat_less, text_less}
use evald.Prelude.Copies.{first_copies}
use evald.Model.{NormalizedSpan}
use evald.Key.{span_key, key_eq}
use evald.Hot.{segment, segnos}
use evald.Hot.Laws.{segment-drop_segment}
use evald.Index.{Redb, BlockMeta, Index, watermark, commit_flush}
use evald.Index.Consistent.{commit_flush_lem}
use evald.Flush.{
  Chrono, Files, Publish, Faults, Shared, by_partition, write_blocks, truncate, after_commit,
  after_blocks, flush_segment, flush_one, with_files, flush_each, pending, flush_pending,
}

module _ (redb : Redb) (chrono : Chrono) where
  -- The faults of a pass that fails only to remove the log segment.
  abbrev pub undeleted : (ℕ → Publish) → ErrorKind → Faults
  undeleted publish kind = record { publish = publish; commit = none; delete = some kind }

  abbrev SameSegment : ℕ → Shared redb chrono → Outcome × Shared redb chrono → Type 0
  SameSegment seqno st r = segment r.1.hot seqno ≡ segment st.hot seqno

  truncate-other :
      (failure : Option ErrorKind) (st : Shared redb chrono) (n seqno : ℕ)
      → nat_beq n seqno ≡ false
      → SameSegment seqno st (truncate redb chrono failure st n)
  truncate-other (some kind) st n seqno h = refl
  truncate-other none st n seqno h = segment-drop_segment st.hot n seqno ∙ rw h refl

  after_commit-other :
      (faults : Faults) (st : Shared redb chrono) (r : Outcome × Index redb) (n seqno : ℕ)
      → nat_beq n seqno ≡ false
      → SameSegment seqno st (after_commit redb chrono faults n st r)
  after_commit-other faults st (err kind, index) n seqno h = refl
  after_commit-other faults st (ok u, index) n seqno h = truncate-other faults.delete _ n seqno h

  after_blocks-other :
      (faults : Faults) (st : Shared redb chrono) (r : Result (List BlockMeta) × Files)
      (n seqno : ℕ)
      → nat_beq n seqno ≡ false
      → SameSegment seqno st (after_blocks redb chrono faults n st r)
  after_blocks-other faults st (err kind, files) n seqno h = refl
  after_blocks-other faults st (ok blocks, files) n seqno h =
      after_commit-other faults (with_files redb chrono st files)
        (commit_flush redb st.index n blocks faults.commit) n seqno h

  flush_segment-other :
      (faults : Faults) (st : Shared redb chrono) (o : Option (List NormalizedSpan)) (n seqno : ℕ)
      → nat_beq n seqno ≡ false
      → SameSegment seqno st (flush_segment redb chrono faults n st o)
  flush_segment-other faults st none n seqno h = refl
  flush_segment-other faults st (some spans) n seqno h =
      after_blocks-other faults st
        (write_blocks st.files n 0 faults.publish
          (by_partition chrono [] (first_copies span_key [] spans)))
        n seqno h

  flush_one-other :
      (faults : Faults) (st : Shared redb chrono) (n seqno : ℕ)
      → nat_beq n seqno ≡ false
      → SameSegment seqno st (flush_one redb chrono faults st n)
  unfolding flush_one
  flush_one-other faults st n seqno h = flush_segment-other faults st (segment st.hot n) n seqno h

  flush_each-other :
      (faults : ℕ → Faults) (st : Shared redb chrono) (l : List ℕ) (seqno : ℕ)
      → contains l seqno ≡ false
      → SameSegment seqno st (flush_each redb chrono faults st l)
  unfolding flush_each
  flush_each-other faults st [] seqno h = refl
  flush_each-other faults st (n ∷ rest) seqno h =
      let first = flush_one redb chrono (faults n) st n in
      let kept = flush_one-other (faults n) st n seqno (ground arith) in
      elim (Result-cases first.0) [
        | inr (kind, e) ↦ rw (e, flush_each) kept
        | inl (u, e) ↦
            rw (e, flush_each) (flush_each-other faults first.1 rest seqno (ground arith) ∙ kept)
      ]

  contains-pending :
      (st : Shared redb chrono) (n : ℕ)
      → contains (pending redb chrono st) n
        ≡ ((ltb (watermark redb st.index) n && ltb n st.active_seqno) && contains (segnos st.hot) n)
  unfolding pending
  contains-pending st n =
      contains-keep (λ s. ltb (watermark redb st.index) s && ltb s st.active_seqno) (segnos st.hot)
        n

  -- A pass looks at no segment at or below the watermark.
  flush_pending-below :
      (faults : ℕ → Faults) (st : Shared redb chrono) (seqno : ℕ)
      → ltb (watermark redb st.index) seqno ≡ false
      → SameSegment seqno st (flush_pending redb chrono faults st)
  unfolding flush_pending
  flush_pending-below faults st seqno h =
      flush_each-other faults st (pending redb chrono st) seqno
        (ground (arith, contains-pending st seqno))

  -- What a flush that fails to remove the log segment leaves.
  abbrev Stuck : Shared redb chrono → ℕ → ErrorKind → Outcome × Shared redb chrono → Type 0
  Stuck st seqno kind r =
      (r.0 ≡ err kind) × (watermark redb r.1.index ≡ seqno) × SameSegment seqno st r

  after_blocks-undeleted :
      (st : Shared redb chrono) (seqno : ℕ) (publish : ℕ → Publish) (kind : ErrorKind)
      (r : Result (List BlockMeta) × Files) (blocks : List BlockMeta)
      → r.0 ≡ ok blocks
      → Stuck st seqno kind (after_blocks redb chrono (undeleted publish kind) seqno st r)
  after_blocks-undeleted st seqno publish kind (err other, files) blocks h = absurd (ground arith)
  after_blocks-undeleted st seqno publish kind (ok written, files) blocks h =
      unfold commit_flush in (refl, (commit_flush_lem redb st.index seqno written [] []).0, refl)

  -- If only the removal of the log segment fails, the flush reports an error, its blocks are
  -- committed, and its spans stay in the hot tier; the next pass, however it ends, does not look at
  -- the segment again, so they stay resident through it.
  pub flush_pending-undeleted :
      (st : Shared redb chrono) (seqno : ℕ) (spans : List NormalizedSpan) (blocks : List BlockMeta)
      (publish : ℕ → Publish) (kind : ErrorKind) (faults : ℕ → Faults)
      → segment st.hot seqno ≡ some spans
      → (write_blocks st.files seqno 0 publish
          (by_partition chrono [] (first_copies span_key [] spans))).0
        ≡ ok blocks
      → ((flush_one redb chrono (undeleted publish kind) st seqno).0 ≡ err kind)
        × (watermark redb (flush_one redb chrono (undeleted publish kind) st seqno).1.index ≡ seqno)
        × (segment
              (flush_pending redb chrono faults
                (flush_one redb chrono (undeleted publish kind) st seqno).1).1.hot
              seqno
            ≡ some spans)
  unfolding flush_one
  flush_pending-undeleted st seqno spans blocks publish kind faults e written =
      let (failed, mark, kept) =
        subst
          (λ (o : Option (List NormalizedSpan)).
            Stuck st seqno kind (flush_segment redb chrono (undeleted publish kind) seqno st o))
          (sym e)
          (after_blocks-undeleted st seqno publish kind
            (write_blocks st.files seqno 0 publish
              (by_partition chrono [] (first_copies span_key [] spans)))
            blocks written) in
      let after = (flush_one redb chrono (undeleted publish kind) st seqno).1 in
      (failed, mark, flush_pending-below faults after seqno (ground (arith, mark)) ∙ kept ∙ e)
