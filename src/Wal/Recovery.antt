-- ===== src/Wal/Recovery.antt =====
-- What a restart reads back from the log after a crash.
use mathlib.Core.List.{append_assoc, append-nil}
use mathlib.Core.Path.{subst}
use evald.Prelude.{
  ℕ, zero, suc, ◌-◌, ◌≤◌, ◌≡◌, refl, ap, ◌∙◌, sym, some, List, [], ◌∷◌, ◌++◌, ◌⊎◌, Text, length,
  take, All, All-append, ltb, if◌then◌else◌, inl, inr, arith, take_of_length-le, nat_eq,
}
use evald.Prelude.Io.{Result, ok, err}
use evald.Prelude.Maps.{nat_less, get, put, get-put}
use evald.Model.{NormalizedSpan}
use evald.Wal.{
  Codec, Dir, Wal, Write, whole, partial, contents, append_bytes, write_result, encode_batch,
  append_nosync, decode_records, read_segment,
}
use evald.Wal.Frames.{RoundTrips}
use evald.Wal.Torn.{encode_batch-cons, decode_from-acked, take-append_behind, take_nil}

-- The bytes of the segment that is written to.
abbrev pub active_bytes : Wal → Text
active_bytes wal = contents (get wal.active_seqno wal.dir)

-- A crash keeps the first `k` bytes of the active segment.
unfoldable pub crash : Wal → ℕ → Dir
crash wal k = put wal.active_seqno (take k (active_bytes wal)) wal.dir

-- The smaller of two cuts.
smaller : ℕ → ℕ → ℕ
smaller zero m = zero
smaller (suc k) zero = zero
smaller (suc k) (suc m) = suc (smaller k m)

take-take-smaller {ℓ} :
    {A : Type ℓ} (k m : ℕ) (xs : List A) → take k (take m xs) ≡ take (smaller k m) xs
unfolding smaller
take-take-smaller zero m xs = refl
take-take-smaller (suc k) zero xs = refl
take-take-smaller (suc k) (suc m) [] = refl
take-take-smaller (suc k) (suc m) (x ∷ xs) = ap (◌∷◌ x) (take-take-smaller k m xs)

pub get-put_self : (n : ℕ) (v : Text) (d : Dir) → get n (put n v d) ≡ some v
get-put_self n v d = ground (arith, get-put n n v d)

module _ (codec : Codec) where
  ok_append :
      (a b : Text) (ys : List NormalizedSpan)
      → ◌≡◌ {A = Result Text} (ok []) (ok a)
      → encode_batch codec ys ≡ ok b
      → encode_batch codec ys ≡ ok (a ++ b)
  ok_append a b ys e f = let nothing : [] ≡ a = cc e in f ∙ ap (λ (t : Text). ok (t ++ b)) nothing

  encode_batch-append :
      (xs ys : List NormalizedSpan) (a b : Text)
      → encode_batch codec xs ≡ ok a
      → encode_batch codec ys ≡ ok b
      → encode_batch codec (xs ++ ys) ≡ ok (a ++ b)
  unfolding encode_batch
  encode_batch-append [] ys a b e f = ok_append a b ys e f
  encode_batch-append (x ∷ xs) ys a b e f =
      let (first, later, p, q, joined) = encode_batch-cons codec x xs a e in
      rw (p, encode_batch-append xs ys later b q f)
        (ap (λ (t : Text). ok t)
          (sym (append_assoc first later b) ∙ ap (λ (t : Text). t ++ b) joined))

  -- What an append may leave behind in the active segment: the first bytes of the batch.
  abbrev pub Appended : Wal → List NormalizedSpan → Wal → Type 0
  Appended wal spans wal' =
      (m : ℕ) × (buf : Text) × ((encode_batch codec spans ≡ ok buf) ⊎ (buf ≡ []))
      × (wal'.active_seqno ≡ wal.active_seqno)
      × (active_bytes wal' ≡ active_bytes wal ++ take m buf)

  write_result-Appended :
      (wal : Wal) (spans : List NormalizedSpan) (write : Write) (r : Result Text)
      → encode_batch codec spans ≡ r
      → Appended wal spans (write_result codec wal spans write r).1
  write_result-Appended wal spans write (err kind) e =
      (0, [], inr refl, refl, sym (append-nil (active_bytes wal)))
  write_result-Appended wal spans (partial n kind) (ok buf) e = (
    n,
    buf,
    inl e,
    refl,
    unfold append_bytes in
        ap contents (get-put_self wal.active_seqno (active_bytes wal ++ take n buf) wal.dir),
  )
  write_result-Appended wal spans whole (ok buf) e = (
    length buf,
    buf,
    inl e,
    refl,
    unfold append_bytes in
        (ap contents (get-put_self wal.active_seqno (active_bytes wal ++ buf) wal.dir)
          ∙ ap (◌++◌ (active_bytes wal)) (sym (take_of_length-le (length buf) buf (omega arith)))),
  )

  pub append_nosync-Appended :
      (wal : Wal) (spans : List NormalizedSpan) (write : Write)
      → Appended wal spans (append_nosync codec wal spans write).1
  unfolding append_nosync
  append_nosync-Appended wal [] write = (0, [], inr refl, refl, sym (append-nil (active_bytes wal)))
  append_nosync-Appended wal (s ∷ spans) write =
      write_result-Appended wal (s ∷ spans) write (encode_batch codec (s ∷ spans)) refl

  -- A successful append: the whole batch is behind what the segment held.
  abbrev pub Whole : Wal → List NormalizedSpan → Wal → Type 0
  Whole wal spans wal' =
      (buf : Text) × (encode_batch codec spans ≡ ok buf)
      × (wal'.active_seqno ≡ wal.active_seqno)
      × (active_bytes wal' ≡ active_bytes wal ++ buf)

  write_result-Whole :
      (wal : Wal) (spans : List NormalizedSpan) (write : Write) (r : Result Text) (n : ℕ)
      (wal' : Wal)
      → encode_batch codec spans ≡ r
      → write_result codec wal spans write r ≡ (ok n, wal')
      → Whole wal spans wal'
  write_result-Whole wal spans write (err kind) n wal' e h = absurd (ground arith)
  write_result-Whole wal spans (partial m kind) (ok buf) n wal' e h = absurd (ground arith)
  write_result-Whole wal spans whole (ok buf) n wal' e h =
      subst (Whole wal spans) (ap (λ (p : Result ℕ × Wal). p.1) h) (
        buf,
        e,
        refl,
        unfold append_bytes in
            ap contents (get-put_self wal.active_seqno (active_bytes wal ++ buf) wal.dir),
      )

  pub append_nosync-Whole :
      (wal : Wal) (spans : List NormalizedSpan) (write : Write) (n : ℕ) (wal' : Wal)
      → append_nosync codec wal spans write ≡ (ok n, wal')
      → Whole wal spans wal'
  unfolding append_nosync
  append_nosync-Whole wal [] write n wal' h =
      subst (Whole wal []) (ap (λ (p : Result ℕ × Wal). p.1) h)
        ([], unfold encode_batch in refl, refl, sym (append-nil (active_bytes wal)))
  append_nosync-Whole wal (s ∷ spans) write n wal' h =
      write_result-Whole wal (s ∷ spans) write (encode_batch codec (s ∷ spans)) n wal' refl h

  -- Reading one segment, from what its bytes decode to.
  pub read_segment-eq :
      (dir : Dir) (seqno : ℕ) (bytes : Text) (spans : List NormalizedSpan) (good : ℕ)
      → get seqno dir ≡ some bytes
      → decode_records codec bytes ≡ some (spans, good)
      → read_segment codec dir seqno
        ≡ some (spans, if ltb good (length bytes) then put seqno (take good bytes) dir else dir)
  unfolding read_segment
  read_segment-eq dir seqno bytes spans good e f = rw (e, read_segment) (rw f refl)

  read_segment-acked :
      (dir : Dir) (seqno k : ℕ) (acked spans : List NormalizedSpan) (before later : Text)
      → All (RoundTrips codec) acked
      → All (RoundTrips codec) spans
      → encode_batch codec acked ≡ ok before
      → encode_batch codec spans ≡ ok later
      → get seqno dir ≡ some (before ++ take k later)
      → (n : ℕ) × (dir' : Dir) × (read_segment codec dir seqno ≡ some (acked ++ take n spans, dir'))
  read_segment-acked dir seqno k acked spans before later ta ts ea es found =
      let bytes = before ++ take k later in
      let (n, good, e) =
        decode_from-acked codec acked spans before later k (suc (length bytes)) 0 ta ts ea es
          (omega arith) in
      (
        n,
        (if ltb good (length bytes) then put seqno (take good bytes) dir else dir),
        read_segment-eq dir seqno bytes (acked ++ take n spans) good found
            (unfold decode_records in e),
      )

-- The active segment after a crash that spared everything up to `acked`.
crash_bytes :
    (wal : Wal) (acked later : Text) (k m : ℕ)
    → active_bytes wal ≡ acked ++ take m later
    → length acked ≤ k
    → get wal.active_seqno (crash wal k) ≡ some (acked ++ take (smaller (k - length acked) m) later)
unfolding crash
crash_bytes wal acked later k m e h =
    get-put_self wal.active_seqno (take k (active_bytes wal)) wal.dir
    ∙ ap (λ (t : Text). some (take k t)) e
    ∙ ap (λ (t : Text). some t)
        (take-append_behind k acked (take m later) h
          ∙ ap (◌++◌ acked) (take-take-smaller (k - length acked) m later))

-- Say the active segment holds the records of `held`, a batch `acked` is appended and the bytes up
-- to there are synced, and a further batch is appended or fails on the way. If the process then
-- dies and the file keeps at least the synced bytes, reading the segment gives all of `held` and
-- `acked`, in order, followed by nothing but the first records of the further batch. The spans are
-- ones that serde reads back from what it writes.
pub read_segment-crash :
    (codec : Codec) (wal wal₁ : Wal) (held acked further : List NormalizedSpan) (before : Text)
    (w₁ w₂ : Write) (seqno k : ℕ)
    → All (RoundTrips codec) held
    → All (RoundTrips codec) acked
    → All (RoundTrips codec) further
    → encode_batch codec held ≡ ok before
    → active_bytes wal ≡ before
    → append_nosync codec wal acked w₁ ≡ (ok seqno, wal₁)
    → length (active_bytes wal₁) ≤ k
    → (n : ℕ) × (dir : Dir) × (read_segment codec
          (crash (append_nosync codec wal₁ further w₂).1 k)
          wal.active_seqno
        ≡ some ((held ++ acked) ++ take n further, dir))
read_segment-crash codec wal wal₁ held acked further before w₁ w₂ seqno k th ta tf eh hold first
      synced =
    let (buf, ea, same, whole_bytes) = append_nosync-Whole codec wal acked w₁ seqno wal₁ first in
    let (m, later, encoded, same', bytes) = append_nosync-Appended codec wal₁ further w₂ in
    let wal₂ = (append_nosync codec wal₁ further w₂).1 in
    let acked_bytes : active_bytes wal₁ ≡ before ++ buf =
      whole_bytes ∙ ap (λ (t : Text). t ++ buf) hold in
    let together = encode_batch-append codec held acked before buf eh ea in
    let cut = smaller (k - length (before ++ buf)) m in
    let found : get wal.active_seqno (crash wal₂ k) ≡ some ((before ++ buf) ++ take cut later) =
      ap (λ (n : ℕ). get n (crash wal₂ k)) (sym (same' ∙ same))
      ∙ crash_bytes wal₂ (before ++ buf) later k m
          (bytes ∙ ap (λ (t : Text). t ++ take m later) acked_bytes)
          (subst (λ (t : Text). length t ≤ k) acked_bytes synced) in
    elim encoded [
      | inl es ↦
          read_segment-acked codec (crash wal₂ k) wal.active_seqno cut (held ++ acked) further
            (before ++ buf) later (All-append (RoundTrips codec) held acked th ta) tf together es
            found
      | inr nothing ↦
          let (n, dir, e) =
            read_segment-acked codec (crash wal₂ k) wal.active_seqno cut (held ++ acked) []
              (before ++ buf) [] (All-append (RoundTrips codec) held acked th ta) tt together
              (unfold encode_batch in refl)
              (found ∙ ap (λ (t : Text). some ((before ++ buf) ++ take cut t)) nothing) in
          (
            0,
            dir,
            e ∙ ap (λ (l : List NormalizedSpan). some ((held ++ acked) ++ l, dir)) (take_nil n),
          )
    ]
