-- ===== src/Recover/Commit.antt =====
-- What the disk holds before and after the commit of a flush.
use evald.Prelude.{
  ℕ, ◌<◌, ◌≡◌, ◌↔◌, ◌⊎◌, refl, ap, ◌∙◌, sym, Bool, true, false, any, Option, none, some, List, [],
  ◌∷◌, Text, nat_eq, nat_beq, text_eq, nat_beq_iff, contains, ltb, arith, Bool-cases, Option-cases,
  inl, inr,
}
use evald.Prelude.Maps.{nat_less, text_less, get, contains-get}
use evald.Model.{NormalizedSpan}
use evald.Key.{SpanKey, key_eq}
use evald.Hot.{segment, or_default}
use evald.Index.{Redb, BlockMeta, Index, watermark, commit_flush}
use evald.Index.Consistent.{commit_flush_lem}
use evald.Query.Distinct.{identities}
use evald.Wal.{Codec, Dir, list_segment_seqnos}
use evald.Flush.{Chrono, Files, Shared}
use evald.Flush.Cold.{InCold}
use evald.Recover.Segments.{logged, logs}
use evald.Recover.Reopen.{Durable}

any-witness :
    (f : ℕ → Bool) (l : List ℕ) → any f l ≡ true → (n : ℕ) × (contains l n ≡ true) × (f n ≡ true)
any-witness f [] h = cc h
any-witness f (x ∷ l) h = elim (Bool-cases (f x)) [
  | inl here ↦ (x, ground arith, here)
  | inr there ↦ let (n, listed, found) = any-witness f l (ground arith) in (n, ground arith, found)
]

any-intro : (f : ℕ → Bool) (l : List ℕ) (n : ℕ) → contains l n ≡ true → f n ≡ true → any f l ≡ true
any-intro f [] n listed h = listed
any-intro f (x ∷ l) n listed h = elim (Bool-cases (nat_beq x n)) [
  | inl here ↦ rw (ap f ((nat_beq_iff x n).0 here) ∙ h) refl
  | inr there ↦ ground (arith, any-intro f l n)
]

-- A segment that holds an identity is listed.
listed_of :
    (codec : Codec) (dir : Dir) (n : ℕ) (k : SpanKey)
    → contains (identities (logged codec (get n dir))) k ≡ true
    → contains (list_segment_seqnos dir) n ≡ true
unfolding list_segment_seqnos
listed_of codec dir n k h = elim (Option-cases (get n dir)) [
  | inl missing ↦ absurd (
      ground (arith, h, ap (λ (o : Option Text). contains (identities (logged codec o)) k) missing))
  | inr (bytes, e) ↦ contains-get n bytes dir e
]

-- Two directories that differ in one segment at most, which may be gone from the second.
abbrev pub AgreeOff : ℕ → Dir → Dir → Type 0
AgreeOff seqno dir dir' = (n : ℕ) → nat_beq seqno n ≡ false → get n dir' ≡ get n dir

module _ (redb : Redb) (chrono : Chrono) (codec : Codec) where
  -- The log holds the segment as the hot tier does, and nothing between the watermark and it.
  pub record Logged (st : Shared redb chrono) (seqno : ℕ) : Type 0 where
    pub above : watermark redb st.index < seqno
    pub same :
        (k : SpanKey)
        → contains (identities (logged codec (get seqno st.wal_dir))) k
          ≡ contains (identities (or_default (segment st.hot seqno))) k
    pub first :
        (n : ℕ) → watermark redb st.index < n → n < seqno → logged codec (get n st.wal_dir) ≡ []

  -- The disk holds an identity before exactly if it does after.
  abbrev pub Kept : Shared redb chrono → Shared redb chrono → SpanKey → Type 0
  Kept st st' k =
      Durable redb chrono codec st.wal_dir st.index st.files k
      ↔ Durable redb chrono codec st'.wal_dir st'.index st'.files k

  pub committed-Durable :
      (st : Shared redb chrono) (seqno : ℕ) (spans : List NormalizedSpan) (blocks : List BlockMeta)
      (wal_dir : Dir) (files : Files) (k : SpanKey)
      → Logged st seqno
      → segment st.hot seqno ≡ some spans
      → AgreeOff seqno st.wal_dir wal_dir
      → (InCold redb chrono st.index st.files k ⊎ (contains (identities spans) k ≡ true))
        ↔ InCold redb chrono (commit_flush redb st.index seqno blocks none).1 files k
      → Durable redb chrono codec st.wal_dir st.index st.files k
        ↔ Durable redb chrono codec wal_dir (commit_flush redb st.index seqno blocks none).1 files k
  committed-Durable st seqno spans blocks wal_dir files k logs_it e agree cold = (forth, back)
    where
      index' : Index redb
      index' = (commit_flush redb st.index seqno blocks none).1

      mark : watermark redb index' ≡ seqno
      mark = (commit_flush_lem redb st.index seqno blocks [] []).0

      flushed :
          contains (identities (logged codec (get seqno st.wal_dir))) k
          ≡ contains (identities spans) k
      flushed = logs_it.same k ∙ rw e refl

      forth :
          Durable redb chrono codec st.wal_dir st.index st.files k
          → Durable redb chrono codec wal_dir index' files k
      forth (inr old) = inr (cold.0 (inl old))
      forth (inl log) =
          let (n, listed, found) =
            any-witness (logs codec (watermark redb st.index) st.wal_dir k)
              (list_segment_seqnos st.wal_dir) log in
          let held : contains (identities (logged codec (get n st.wal_dir))) k ≡ true =
            ground arith in
          elim (Bool-cases (nat_beq seqno n)) [
            | inl here ↦
                let same : seqno ≡ n = (nat_beq_iff seqno n).0 here in
                inr (
                  cold.0 (
                    inr (
                      sym flushed
                      ∙ ap (λ (m : ℕ). contains (identities (logged codec (get m st.wal_dir))) k)
                          same
                      ∙ held)))
            | inr there ↦ elim (Bool-cases (ltb n seqno)) [
              | inl below ↦ absurd (
                  ground (
                    arith,
                    held,
                    ap (λ (l : List NormalizedSpan). contains (identities l) k)
                        (logs_it.first n (ground arith) (ground arith)),
                  ))
              | inr later ↦
                  let kept : contains (identities (logged codec (get n wal_dir))) k ≡ true =
                    ap (λ (o : Option Text). contains (identities (logged codec o)) k)
                      (agree n there)
                    ∙ held in
                  inl (
                    any-intro (logs codec (watermark redb index') wal_dir k)
                      (list_segment_seqnos wal_dir) n (listed_of codec wal_dir n k kept)
                      (ground (arith, mark)))
            ]
          ]

      back :
          Durable redb chrono codec wal_dir index' files k
          → Durable redb chrono codec st.wal_dir st.index st.files k
      back (inr new) = elim (cold.1 new) [
        | inl old ↦ inr old
        | inr mine ↦ inl (
            any-intro (logs codec (watermark redb st.index) st.wal_dir k)
              (list_segment_seqnos st.wal_dir) seqno
              (listed_of codec st.wal_dir seqno k (flushed ∙ mine))
              (ground (arith, logs_it.above, flushed)))
      ]
      back (inl log) =
          let (n, listed, found) =
            any-witness (logs codec (watermark redb index') wal_dir k) (list_segment_seqnos wal_dir)
              log in
          let other : nat_beq seqno n ≡ false = ground (arith, mark) in
          let held : contains (identities (logged codec (get n st.wal_dir))) k ≡ true =
            ap (λ (o : Option Text). contains (identities (logged codec o)) k) (sym (agree n other))
            ∙ ground arith in
          inl (
            any-intro (logs codec (watermark redb st.index) st.wal_dir k)
              (list_segment_seqnos st.wal_dir) n (listed_of codec st.wal_dir n k held)
              (ground (arith, logs_it.above, mark)))
