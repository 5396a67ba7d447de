-- ===== src/Recover/Reopen.antt =====
-- The state that a restart builds, against the disk it is built from.
use evald.Prelude.{
  ℕ, ◌≤◌, ◌<◌, ◌≡◌, ◌↔◌, ◌⊎◌, refl, ◌∙◌, sym, true, false, ◌||◌, any, none, some, List, [], ◌∷◌,
  ◌++◌, Text, nat_eq, nat_beq, text_eq, text_beq_iff, contains, IsDistinct, leb, if◌then◌else◌,
  arith, Bool-cases, inl, inr,
}
use evald.Prelude.Maps.{Map, nat_less, text_less, get, put, keys, values, get-delete, keys-put}
use evald.Model.{NormalizedSpan}
use evald.Key.{SpanKey, key_eq}
use evald.Hot.{HotTier, hot_empty, load_segment, all_spans, concat}
use evald.Index.{Redb, Index, watermark, all_block_paths}
use evald.Query.Distinct.{identities, contains-identities-append}
use evald.Wal.{Codec, Dir, list_segment_seqnos, delete_segment, read_segment, open_wal}
use evald.Flush.{Chrono, Files, Shared}
use evald.Flush.Cold.{InCold, Stored}
use evald.Recover.{Recovered, sweep_orphans, loaded, recover_one, recover_each, opened, open_store}
use evald.Recover.Segments.{logged, read_segment-logged, logs, any-logs-Agree}

concat-put :
    (n : ℕ) (v : List NormalizedSpan) (m : Map ℕ (List NormalizedSpan)) (k : SpanKey)
    → contains (keys m) n ≡ false
    → contains (identities (concat (values (put n v m)))) k
      ≡ (contains (identities (concat (values m))) k || contains (identities v) k)
concat-put n v [] k h = contains-identities-append v [] k ∙ ground arith
concat-put n v ((j, w) ∷ m) k h = ground (
  arith,
  concat-put n v m k,
  contains-identities-append w (concat (values m)) k,
  contains-identities-append w (concat (values (put n v m))) k,
  contains-identities-append v (w ++ concat (values m)) k,
)

contains-load_segment :
    (hot : HotTier) (n : ℕ) (spans : List NormalizedSpan) (k : SpanKey)
    → contains (keys hot.segments) n ≡ false
    → contains (identities (all_spans (load_segment hot n spans))) k
      ≡ (contains (identities (all_spans hot)) k || contains (identities spans) k)
unfolding all_spans load_segment
contains-load_segment hot n [] k h = ground arith
contains-load_segment hot n (s ∷ spans) k h = concat-put n (s ∷ spans) hot.segments k h

keys-load_segment :
    (hot : HotTier) (n m : ℕ) (spans : List NormalizedSpan)
    → contains (keys hot.segments) m ≡ false
    → nat_beq n m ≡ false
    → contains (keys (load_segment hot n spans).segments) m ≡ false
unfolding load_segment
keys-load_segment hot n m [] h e = h
keys-load_segment hot n m (s ∷ spans) h e = keys-put n m (s ∷ spans) hot.segments ∙ rw e h

-- None of the listed segments is in the hot tier yet.
abbrev Apart : List ℕ → HotTier → Type 0
Apart l hot = (n : ℕ) → contains l n ≡ true → contains (keys hot.segments) n ≡ false

-- How the loop over the segments ends.
abbrev Reads : Codec → ℕ → Recovered → List ℕ → Type 0
Reads codec watermark st l =
    (st' : Recovered) × (recover_each codec watermark st l ≡ some st')
    × ((k : SpanKey)
        → contains (identities (all_spans st'.hot)) k ≡ (
            contains (identities (all_spans st.hot)) k
            || any (logs codec watermark st.wal_dir k) l))
    × (st.max_seqno ≤ st'.max_seqno)
    × ((n : ℕ) → contains l n ≡ true → watermark < n → n ≤ st'.max_seqno)

recover_each-step :
    (codec : Codec) (watermark seqno : ℕ) (st next st' : Recovered) (rest : List ℕ)
    → recover_one codec watermark st seqno ≡ some next
    → recover_each codec watermark next rest ≡ some st'
    → recover_each codec watermark st (seqno ∷ rest) ≡ some st'
unfolding recover_each
recover_each-step codec watermark seqno st next st' rest e f = rw e f

recover_one-old :
    (codec : Codec) (watermark seqno : ℕ) (st : Recovered)
    → leb seqno watermark ≡ true
    → recover_one codec watermark st seqno
      ≡ some (record {
        wal_dir = delete_segment st.wal_dir seqno;
        hot = st.hot;
        max_seqno = st.max_seqno;
      })
unfolding recover_one
recover_one-old codec watermark seqno st old = rw old refl

recover_one-new :
    (codec : Codec) (watermark seqno : ℕ) (st : Recovered) (spans : List NormalizedSpan) (dir : Dir)
    → leb seqno watermark ≡ false
    → read_segment codec st.wal_dir seqno ≡ some (spans, dir)
    → recover_one codec watermark st seqno ≡ some (loaded st seqno (spans, dir))
unfolding recover_one
recover_one-new codec watermark seqno st spans dir new e = rw (new, e) refl

recover_each-Reads :
    (codec : Codec) (watermark : ℕ) (st : Recovered) (l : List ℕ)
    → IsDistinct l
    → Apart l st.hot
    → Reads codec watermark st l
recover_each-Reads codec watermark st [] distinct apart =
    (st, unfold recover_each in refl, λ k. ground arith, omega arith, λ n h. ground arith)
recover_each-Reads codec watermark st (seqno ∷ rest) distinct apart =
    elim (Bool-cases (leb seqno watermark)) [
      | inl old ↦
          let next : Recovered = record {
            wal_dir = delete_segment st.wal_dir seqno;
            hot = st.hot;
            max_seqno = st.max_seqno;
          } in
          let (st', e, found, grows, above) =
            recover_each-Reads codec watermark next rest distinct.1
              (λ n h. apart n (ground arith)) in
          (
            st',
            recover_each-step codec watermark seqno st next st' rest
                (recover_one-old codec watermark seqno st old) e,
            λ k. ground (
              arith,
              found k,
              any-logs-Agree codec watermark st.wal_dir next.wal_dir k seqno rest distinct.0
                  (unfold delete_segment in λ n h. get-delete seqno n st.wal_dir ∙ rw h refl),
            ),
            grows,
            λ n listed newer. above n (ground arith) newer,
          )
      | inr new ↦
          let (dir, read, same) = read_segment-logged codec st.wal_dir seqno in
          let spans = logged codec (get seqno st.wal_dir) in
          let next : Recovered = loaded st seqno (spans, dir) in
          let (st', e, found, grows, above) =
            recover_each-Reads codec watermark next rest distinct.1 (λ n h.
              keys-load_segment st.hot seqno n spans (apart n (ground arith)) (ground arith)) in
          (
            st',
            recover_each-step codec watermark seqno st next st' rest
                (recover_one-new codec watermark seqno st spans dir new read) e,
            λ k. ground (
              arith,
              found k,
              any-logs-Agree codec watermark st.wal_dir dir k seqno rest distinct.0 same,
              contains-load_segment st.hot seqno spans k (apart seqno (ground arith)),
            ),
            ground (arith, grows),
            λ n listed newer. elim (Bool-cases (nat_beq seqno n)) [
              | inl here ↦ ground (arith, grows)
              | inr there ↦ above n (ground arith) newer
            ],
          )
    ]

sweep-get :
    (known : List Text) (p : Text) (files : Files)
    → get p (sweep_orphans known files) ≡ (if contains known p then get p files else none)
unfolding sweep_orphans
sweep-get known p [] = ground arith
sweep-get known p ((q, spans) ∷ files) = ground (arith, sweep-get known p files, text_beq_iff q p)

module _ (redb : Redb) (chrono : Chrono) (codec : Codec) where
  -- An identity that the disk holds: in a log segment above the watermark, or in an indexed block.
  abbrev pub Durable : Dir → Index redb → Files → SpanKey → Type 0
  Durable wal_dir index files k =
      (any (logs codec (watermark redb index) wal_dir k) (list_segment_seqnos wal_dir) ≡ true)
      ⊎ InCold redb chrono index files k

  InCold-sweep_orphans :
      (index : Index redb) (files : Files) (k : SpanKey)
      → InCold redb chrono index files k
        ↔ InCold redb chrono index (sweep_orphans (all_block_paths redb index) files) k
  InCold-sweep_orphans index files k = (
    λ (p, held, found). (p, held, rw (sweep-get (all_block_paths redb index) p files, held) found),
    λ (p, held, found).
        (p, held, ground (arith, found, sweep-get (all_block_paths redb index) p files)),
  )

  -- Opening a store ends, if the log directory lists no segment twice. The opened store holds, in its two tiers, exactly the identities
  -- that the disk held: those of the log segments above the watermark and those of the indexed
  -- blocks. It appends to a segment above every one that it read.
  pub open_store-Durable :
      (wal_dir : Dir) (index : Index redb) (files : Files)
      → IsDistinct (list_segment_seqnos wal_dir)
      → (st : Shared redb chrono) × (open_store redb chrono codec wal_dir index files ≡ some st)
        × ((k : SpanKey) → Durable wal_dir index files k ↔ Stored redb chrono st k)
        × ((n : ℕ)
            → contains (list_segment_seqnos wal_dir) n ≡ true
            → watermark redb index < n
            → n < st.active_seqno)
  unfolding open_store open_wal all_spans list_segment_seqnos
  open_store-Durable wal_dir index files distinct =
      let mark = watermark redb index in
      let start : Recovered = record { wal_dir = wal_dir; hot = hot_empty; max_seqno = mark } in
      let (st, e, found, grows, above) =
        recover_each-Reads codec mark start (list_segment_seqnos wal_dir) distinct (λ n h. refl) in
      (
        opened redb chrono codec index files st,
        rw e refl,
        λ k.
            let (swept, kept) = InCold-sweep_orphans index files k in
            (
              λ h. elim h [ inl log ↦ inl (found k ∙ log) | inr cold ↦ inr (swept cold) ],
              λ h. elim h [ inl hot ↦ inl (sym (found k) ∙ hot) | inr cold ↦ inr (kept cold) ],
            ),
        λ n listed newer. ground (arith, above n listed newer),
      )
