-- ===== src/Wal/Loss.antt =====
-- What a torn write does to the batches that are acknowledged after it.
use mathlib.Core.List.{append_assoc}
use mathlib.Core.Path.{subst}
use evald.Prelude.{
  ℕ, zero, suc, ◌+◌, ◌≤◌, ◌<◌, ◌≡◌, refl, ap, ◌∙◌, sym, none, some, List, [], ◌∷◌, ◌++◌, Text,
  length, take, All, ltb, if◌then◌else◌, Option-cases, inl, inr, arith, length-append, nat_eq,
}
use evald.Prelude.Io.{ErrorKind, Result, ok}
use evald.Prelude.Maps.{nat_less, get, put}
use evald.Model.{NormalizedSpan}
use evald.Wal.{
  Codec, Dir, Wal, whole, partial, contents, encode_batch, append_nosync, append_bytes,
  write_result, record_at, decode_from, decode_records, read_segment,
}
use evald.Wal.Frames.{RoundTrips}
use evald.Wal.Torn.{
  encode_batch-cons, decode_from-stop, decode_from-record, length-encode_record-pos,
}
use evald.Wal.Recovery.{
  active_bytes, append_nosync-Whole, append_nosync-Appended, read_segment-eq, get-put_self,
}
use evald.Wal.Damage.{read_missing}

module _ (codec : Codec) where
  -- Bytes that hold no record end the reading, whatever is behind them.
  decode_from-front :
      (held : List NormalizedSpan) (before rest : Text) (fuel cursor : ℕ)
      → All (RoundTrips codec) held
      → encode_batch codec held ≡ ok before
      → record_at codec rest ≡ none
      → length held < fuel
      → (good : ℕ) × (decode_from codec fuel cursor (before ++ rest) ≡ some (held, good))
  decode_from-front held before rest zero cursor trips e stop h = absurd (omega arith)
  decode_from-front [] before rest (suc fuel) cursor trips e stop h =
      subst
        (λ (b : Text).
          (good : ℕ) × (decode_from codec (suc fuel) cursor (b ++ rest) ≡ some ([], good)))
        {x = []} (unfold encode_batch in cc e)
        (cursor, decode_from-stop codec fuel cursor rest stop)
  decode_from-front (s ∷ held) before rest (suc fuel) cursor trips e stop h =
      let (first, later, p, q, joined) = encode_batch-cons codec s held before e in
      let (good, f) =
        decode_from-front held later rest fuel (cursor + length first) trips.1 q stop
          (omega arith) in
      (
        good,
        ap (decode_from codec (suc fuel) cursor)
              (ap (λ (b : Text). b ++ rest) (sym joined) ∙ append_assoc first later rest)
            ∙ decode_from-record codec fuel cursor good s first (later ++ rest) held trips.0 p f,
      )

  -- A batch has at least as many bytes as records.
  length-encode_batch :
      (spans : List NormalizedSpan) (buf : Text)
      → encode_batch codec spans ≡ ok buf
      → length spans ≤ length buf
  length-encode_batch [] buf e = omega arith
  length-encode_batch (s ∷ spans) buf e =
      let (first, later, p, q, joined) = encode_batch-cons codec s spans buf e in
      omega (
        arith,
        length-encode_batch spans later q,
        length-encode_record-pos codec s first p,
        length-append {0} first later,
        ap (λ (b : Text). length b) joined,
      )

  -- What a failed write of a batch leaves in the segment.
  torn_bytes :
      (wal : Wal) (s : NormalizedSpan) (rest : List NormalizedSpan) (later : Text) (m : ℕ)
      (kind : ErrorKind)
      → encode_batch codec (s ∷ rest) ≡ ok later
      → active_bytes (append_nosync codec wal (s ∷ rest) (partial m kind)).1
        ≡ active_bytes wal ++ take m later
  unfolding append_nosync append_bytes
  torn_bytes wal s rest later m kind e =
      ap
        (λ (r : Result Text). active_bytes (write_result codec wal (s ∷ rest) (partial m kind) r).1)
        e
      ∙ ap contents (get-put_self wal.active_seqno (active_bytes wal ++ take m later) wal.dir)

  nothing :
      {bytes : Text} {spans : List NormalizedSpan} {good : ℕ}
      → [] ≡ bytes
      → decode_records codec bytes ≡ some (spans, good)
      → [] ≡ spans
  unfolding decode_records
  nothing e f = cc (
    ap (λ (b : Text). decode_from codec (suc (length b)) 0 b) e,
    f,
    decode_from-stop codec 0 0 [] (unfold record_at in refl),
  )

  -- A read by the bytes of the segment; a missing one is as an empty one.
  read_segment-contents :
      (dir : Dir) (seqno good : ℕ) (bytes : Text) (spans : List NormalizedSpan)
      → contents (get seqno dir) ≡ bytes
      → decode_records codec bytes ≡ some (spans, good)
      → (dir' : Dir) × (read_segment codec dir seqno ≡ some (spans, dir'))
  read_segment-contents dir seqno good bytes spans e f = elim (Option-cases (get seqno dir)) [
    | inl missing ↦ (dir, read_missing codec seqno dir missing ∙ cc (nothing (cc (missing, e)) f))
    | inr (held, g) ↦ (
      (if ltb good (length bytes) then put seqno (take good bytes) dir else dir),
      read_segment-eq codec dir seqno bytes spans good (cc (g, e)) f,
    )
  ]

-- Say the active segment holds the records of `held`, which serde reads back as they were, and the
-- write of a further batch fails after `m` of its bytes, which is reported as an error. If a later
-- batch `acked` is then appended with success, and the bytes from the torn ones on do not read as a
-- record, then reading the segment gives `held` only: the batch that was appended with success is
-- lost, although none of its bytes are.
pub append_nosync-after_partial :
    (codec : Codec) (wal wal₂ : Wal) (held acked rest : List NormalizedSpan) (s : NormalizedSpan)
    (before later behind : Text) (m seqno : ℕ) (kind : ErrorKind)
    → All (RoundTrips codec) held
    → encode_batch codec held ≡ ok before
    → active_bytes wal ≡ before
    → encode_batch codec (s ∷ rest) ≡ ok later
    → encode_batch codec acked ≡ ok behind
    → append_nosync codec (append_nosync codec wal (s ∷ rest) (partial m kind)).1 acked whole
      ≡ (ok seqno, wal₂)
    → record_at codec (take m later ++ behind) ≡ none
    → (dir : Dir) × (read_segment codec wal₂.dir wal.active_seqno ≡ some (held, dir))
append_nosync-after_partial codec wal wal₂ held acked rest s before later behind m seqno kind trips
      eh hold es ea second stop =
    let wal₁ = (append_nosync codec wal (s ∷ rest) (partial m kind)).1 in
    let (buf, eb, same, bytes) = append_nosync-Whole codec wal₁ acked whole seqno wal₂ second in
    let same₁ : wal₁.active_seqno ≡ wal.active_seqno =
      (append_nosync-Appended codec wal (s ∷ rest) (partial m kind)).3 in
    let torn = take m later ++ behind in
    let found : contents (get wal.active_seqno wal₂.dir) ≡ before ++ torn =
      ap (λ (n : ℕ). contents (get n wal₂.dir)) (sym (same ∙ same₁))
      ∙ bytes
      ∙ ap (λ (t : Text). active_bytes wal₁ ++ t) (cc (ea, eb))
      ∙ ap (λ (t : Text). t ++ behind) (torn_bytes codec wal s rest later m kind es)
      ∙ ap (λ (t : Text). (t ++ take m later) ++ behind) hold
      ∙ append_assoc before (take m later) behind in
    let (good, e) =
      decode_from-front codec held before torn (suc (length (before ++ torn))) 0 trips eh stop
        (omega (arith, length-encode_batch codec held before eh, length-append {0} before torn)) in
    read_segment-contents codec wal₂.dir wal.active_seqno good (before ++ torn) held found
      (unfold decode_records in e)
