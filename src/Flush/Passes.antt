-- ===== src/Flush/Passes.antt =====
-- A whole pass over the sealed segments.
use evald.Prelude.{
  ℕ, ◌↔◌, Bool, ◌&&◌, List, [], ◌∷◌, keep, ltb, nat_eq, arith, Bool-cases, inl, inr,
}
use evald.Prelude.Io.{Result-cases}
use evald.Prelude.Maps.{nat_less}
use evald.Key.{SpanKey}
use evald.Hot.{segnos}
use evald.Index.{Redb, watermark}
use evald.Flush.{Chrono, Faults, Shared, flush_one, flush_each, pending, flush_pending}
use evald.Flush.Cold.{Stored}
use evald.Flush.Keeps.{flush_one-Stored}
use evald.Flush.Ready.{
  IsReady, Ascends, Ascends-weaken, IsAscending, paths_of-IsFresh, flush_one-IsReady,
}

Ascends-keep : (above : ℕ) (p : ℕ → Bool) (l : List ℕ) → Ascends above l → Ascends above (keep p l)
Ascends-keep above p [] h = tt
Ascends-keep above p (n ∷ rest) h = elim (Bool-cases (p n)) [
  | inl e ↦ rw e (h.0, Ascends-keep n p rest h.1)
  | inr e ↦
      rw e (Ascends-weaken above n (keep p rest) (omega (arith, h.0)) (Ascends-keep n p rest h.1))
]

-- The numbers of an ascending list that pass a test, all above the mark that it asks for.
above_mark :
    (above mark bound : ℕ) (l : List ℕ)
    → Ascends above l
    → Ascends mark (keep (λ s. ltb mark s && ltb s bound) l)
above_mark above mark bound [] h = tt
above_mark above mark bound (n ∷ rest) h = elim (Bool-cases (ltb mark n && ltb n bound)) [
  | inl e ↦ rw e (ground (arith, e), Ascends-keep n (λ s. ltb mark s && ltb s bound) rest h.1)
  | inr e ↦ rw e (above_mark n mark bound rest h.1)
]

above_mark_of_ascending :
    (mark bound : ℕ) (l : List ℕ)
    → IsAscending l
    → Ascends mark (keep (λ s. ltb mark s && ltb s bound) l)
above_mark_of_ascending mark bound [] h = tt
above_mark_of_ascending mark bound (n ∷ rest) h = elim (Bool-cases (ltb mark n && ltb n bound)) [
  | inl e ↦ rw e (ground (arith, e), Ascends-keep n (λ s. ltb mark s && ltb s bound) rest h)
  | inr e ↦ rw e (above_mark n mark bound rest h)
]

module _ (redb : Redb) (chrono : Chrono) where
  flush_each-Stored :
      (faults : ℕ → Faults) (l : List ℕ) (st : Shared redb chrono) (k : SpanKey)
      → IsReady redb chrono st.index st.hot
      → Ascends (watermark redb st.index) l
      → (let after = (flush_each redb chrono faults st l).1 in
          (Stored redb chrono st k ↔ Stored redb chrono after k)
          × IsReady redb chrono after.index after.hot)
  unfolding flush_each
  flush_each-Stored faults [] st k ready up = ((λ h. h, λ h. h), ready)
  flush_each-Stored faults (seqno ∷ rest) st k ready up =
      let first = flush_one redb chrono (faults seqno) st seqno in
      let (still, mark) = flush_one-IsReady redb chrono (faults seqno) st seqno ready up.0 in
      let (keeps, kept) =
        flush_one-Stored redb chrono (faults seqno) st seqno k ready.distinct
          (paths_of-IsFresh redb chrono st seqno ready up.0) in
      elim (Result-cases first.0) [
        | inl (u, e) ↦
            let ((on, back), ready') =
              flush_each-Stored faults rest first.1 k still
                (Ascends-weaken (watermark redb first.1.index) seqno rest mark up.1) in
            rw (e, flush_each) ((λ h. on (keeps h), λ h. kept (back h)), ready')
        | inr (kind, e) ↦ rw (e, flush_each) ((keeps, kept), still)
      ]

  -- A flush pass, wherever it stops, keeps the identities that the two tiers hold together, and leaves
  -- the state ready for the next pass: no block of the index is named for a segment above the watermark, and the
  -- hot tier has its segments in ascending order, once each. It starts from such a state, with segments and
  -- partitions numbered in 64 bits.
  pub flush_pending-Stored :
      (faults : ℕ → Faults) (st : Shared redb chrono) (k : SpanKey)
      → IsReady redb chrono st.index st.hot
      → (let after = (flush_pending redb chrono faults st).1 in
          (Stored redb chrono st k ↔ Stored redb chrono after k)
          × IsReady redb chrono after.index after.hot)
  unfolding flush_pending pending segnos
  flush_pending-Stored faults st k ready =
      flush_each-Stored faults (pending redb chrono st) st k ready (
        above_mark_of_ascending (watermark redb st.index) st.active_seqno (segnos st.hot)
          ready.ascending)
