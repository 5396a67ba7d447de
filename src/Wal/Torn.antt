-- ===== src/Wal/Torn.antt =====
-- Reading a log that was cut off at any byte.
use mathlib.Core.List.{append_assoc}
use mathlib.Core.Path.{subst}
use evald.Prelude.{
  ℕ, zero, suc, ◌+◌, ◌-◌, ◌≤◌, ◌<◌, ◌≡◌, refl, ap, ◌∙◌, sym, none, some, List, [], ◌∷◌, ◌++◌, Text,
  length, take, drop, All, leb, Bool-cases, inl, inr, arith, length-append, length-take,
  drop-append, leb→le,
}
use evald.Prelude.Io.{ok, Result-cases}
use evald.Model.{NormalizedSpan}
use evald.Wal.{Codec, encode_record, encode_batch, record_at, decode_from}
use evald.Wal.Frames.{
  RoundTrips, record_at-frame, record_at-take-frame, encode_record-eq_ok, length-frame,
}

-- Cutting `xs ++ ys` off inside `xs`, and behind it.
pub take-append_inside {ℓ} :
    {A : Type ℓ} (k : ℕ) (xs ys : List A) → k ≤ length xs → take k (xs ++ ys) ≡ take k xs
take-append_inside zero xs ys h = refl
take-append_inside (suc k) [] ys h = absurd (omega arith)
take-append_inside (suc k) (x ∷ xs) ys h = ap (◌∷◌ x) (take-append_inside k xs ys (omega arith))

pub take-append_behind {ℓ} :
    {A : Type ℓ} (k : ℕ) (xs ys : List A)
    → length xs ≤ k
    → take k (xs ++ ys) ≡ xs ++ take (k - length xs) ys
take-append_behind k [] ys h = ap (λ (n : ℕ). take n ys) (omega arith)
take-append_behind zero (x ∷ xs) ys h = absurd (omega arith)
take-append_behind (suc k) (x ∷ xs) ys h =
    ap (◌∷◌ x)
      (take-append_behind k xs ys (omega arith) ∙ ap (λ (n : ℕ). xs ++ take n ys) (omega arith))

pub take_nil {ℓ} : {A : Type ℓ} (k : ℕ) → take {A = A} k [] ≡ []
take_nil zero = refl
take_nil (suc k) = refl

shorter :
    (first later : Text) (k fuel : ℕ)
    → length first ≤ k
    → 0 < length first
    → length (take k (first ++ later)) < suc fuel
    → length (take (k - length first) later) < fuel
shorter first later k fuel h pos fits = omega (
  arith,
  length-take {0} k (first ++ later),
  length-append {0} first later,
  length-take {0} (k - length first) later,
)

module _ (codec : Codec) where
  -- What a batch's bytes are: the first record's frame, and the rest of the batch.
  pub encode_batch-cons :
      (span : NormalizedSpan) (spans : List NormalizedSpan) (buf : Text)
      → encode_batch codec (span ∷ spans) ≡ ok buf
      → (first : Text) × (later : Text) × (encode_record codec span ≡ ok first)
        × (encode_batch codec spans ≡ ok later)
        × (first ++ later ≡ buf)
  unfolding encode_batch
  encode_batch-cons span spans buf h = elim (Result-cases (encode_record codec span)) [
    | inr (kind, e) ↦ absurd (ground arith)
    | inl (first, e) ↦ elim (Result-cases (encode_batch codec spans)) [
      | inr (kind, f) ↦ absurd (ground arith)
      | inl (later, f) ↦ (first, later, e, f, ground arith)
    ]
  ]

  -- One round of the loop that reads a record.
  pub decode_from-step :
      (fuel cursor size good : ℕ) (bytes : Text) (span : NormalizedSpan)
      (spans : List NormalizedSpan)
      → record_at codec bytes ≡ some (span, size)
      → decode_from codec fuel (cursor + size) (drop size bytes) ≡ some (spans, good)
      → decode_from codec (suc fuel) cursor bytes ≡ some (span ∷ spans, good)
  unfolding decode_from
  decode_from-step fuel cursor size good bytes span spans e f = rw (e, decode_from) (rw f refl)

  pub decode_from-stop :
      (fuel cursor : ℕ) (bytes : Text)
      → record_at codec bytes ≡ none
      → decode_from codec (suc fuel) cursor bytes ≡ some ([], cursor)
  unfolding decode_from
  decode_from-stop fuel cursor bytes e = rw (e, decode_from) refl

  -- A record in front of anything.
  pub decode_from-record :
      (fuel cursor good : ℕ) (span : NormalizedSpan) (first rest : Text)
      (spans : List NormalizedSpan)
      → RoundTrips codec span
      → encode_record codec span ≡ ok first
      → decode_from codec fuel (cursor + length first) rest ≡ some (spans, good)
      → decode_from codec (suc fuel) cursor (first ++ rest) ≡ some (span ∷ spans, good)
  decode_from-record fuel cursor good span first rest spans trips e f =
      let (payload, written, short, framed) = encode_record-eq_ok codec span first e in
      let sized : 8 + length payload ≡ length first =
        sym (length-frame codec payload) ∙ ap length framed in
      decode_from-step fuel cursor (length first) good (first ++ rest) span spans
        (ap (λ (t : Text). record_at codec (t ++ rest)) (sym framed)
          ∙ record_at-frame codec payload rest span short (trips payload written)
          ∙ ap (λ (n : ℕ). some (span, n)) sized)
        (ap (decode_from codec fuel (cursor + length first)) (drop-append first rest) ∙ f)

  record_at-cut :
      (k : ℕ) (span : NormalizedSpan) (first : Text)
      → encode_record codec span ≡ ok first
      → k < length first
      → record_at codec (take k first) ≡ none
  record_at-cut k span first e h =
      let (payload, written, short, framed) = encode_record-eq_ok codec span first e in
      ap (λ (t : Text). record_at codec (take k t)) (sym framed)
      ∙ record_at-take-frame codec k payload short
          (omega (arith, length-frame codec payload, ap length framed))

  pub length-encode_record-pos :
      (span : NormalizedSpan) (first : Text)
      → encode_record codec span ≡ ok first
      → 0 < length first
  length-encode_record-pos span first e =
      let (payload, written, short, framed) = encode_record-eq_ok codec span first e in
      omega (arith, length-frame codec payload, ap length framed)

  abbrev Cut : ℕ → ℕ → Text → List NormalizedSpan → Type 0
  Cut fuel cursor bytes spans =
      (n : ℕ) × (good : ℕ) × (decode_from codec fuel cursor bytes ≡ some (take n spans, good))

  record_at-nil : record_at codec [] ≡ none
  unfolding record_at
  record_at-nil = refl

  -- The first `k` bytes of a batch give its first `n` records, for some `n`.
  decode_from-take :
      (spans : List NormalizedSpan) (buf : Text) (k fuel cursor : ℕ)
      → All (RoundTrips codec) spans
      → encode_batch codec spans ≡ ok buf
      → length (take k buf) < fuel
      → Cut fuel cursor (take k buf) spans
  decode_from-take spans buf k zero cursor trips e h = absurd (omega arith)
  decode_from-take [] buf k (suc fuel) cursor trips e h = (
    0,
    cursor,
    decode_from-stop fuel cursor (take k buf) (nothing buf k (unfold encode_batch in cc e)),
  )
    where
      nothing : (buf : Text) (k : ℕ) → [] ≡ buf → record_at codec (take k buf) ≡ none
      nothing buf k e =
          ap (λ (b : Text). record_at codec (take k b)) (sym e)
          ∙ ap (record_at codec) (take_nil k)
          ∙ record_at-nil
  decode_from-take (s ∷ spans) buf k (suc fuel) cursor trips e h =
      let (first, later, p, q, joined) = encode_batch-cons s spans buf e in
      subst (λ (b : Text). Cut (suc fuel) cursor (take k b) (s ∷ spans)) joined
        (elim (Bool-cases (leb (length first) k)) [
          | inr inside ↦ (
            0,
            cursor,
            decode_from-stop fuel cursor (take k (first ++ later)) (
                ap (record_at codec) (take-append_inside k first later (ground arith))
                ∙ record_at-cut k s first p (ground arith)),
          )
          | inl behind ↦
              let (n, good, rest) =
                decode_from-take spans later (k - length first) fuel (cursor + length first) trips.1
                  q
                  (shorter first later k fuel (leb→le _ _ behind)
                    (length-encode_record-pos s first p)
                    (subst (λ (b : Text). length (take k b) < suc fuel) (sym joined) h)) in
              (
                suc n,
                good,
                ap (decode_from codec (suc fuel) cursor)
                      (take-append_behind k first later (leb→le _ _ behind))
                    ∙ decode_from-record fuel cursor good s first (take (k - length first) later)
                        (take n spans) trips.0 p rest,
              )
        ])

  -- Reading a log of `acked` records and the first `k` bytes of a later batch gives all of
  -- `acked` and then whole records of that batch.
  pub decode_from-acked :
      (acked spans : List NormalizedSpan) (before later : Text) (k fuel cursor : ℕ)
      → All (RoundTrips codec) acked
      → All (RoundTrips codec) spans
      → encode_batch codec acked ≡ ok before
      → encode_batch codec spans ≡ ok later
      → length (before ++ take k later) < fuel
      → (n : ℕ) × (good : ℕ) × (decode_from codec fuel cursor (before ++ take k later)
          ≡ some (acked ++ take n spans, good))
  decode_from-acked acked spans before later k zero cursor ta ts ea es h = absurd (omega arith)
  decode_from-acked [] spans before later k (suc fuel) cursor ta ts ea es h =
      subst
        (λ (b : Text).
          (n : ℕ) × (good : ℕ) × (decode_from codec (suc fuel) cursor (b ++ take k later)
            ≡ some (take n spans, good)))
        {x = []} (unfold encode_batch in cc ea)
        (decode_from-take spans later k (suc fuel) cursor ts es
          (omega (arith, length-append {0} before (take k later))))
  decode_from-acked (s ∷ acked) spans before later k (suc fuel) cursor ta ts ea es h =
      let (first, rest, p, q, joined) = encode_batch-cons s acked before ea in
      let (n, good, e) =
        decode_from-acked acked spans rest later k fuel (cursor + length first) ta.1 ts q es (
          omega (
            arith,
            length-append {0} before (take k later),
            length-append {0} rest (take k later),
            length-append {0} first rest,
            ap (λ (b : Text). length b) joined,
            length-encode_record-pos s first p,
          )) in
      (
        n,
        good,
        ap (decode_from codec (suc fuel) cursor) (
              ap (λ (b : Text). b ++ take k later) (sym joined)
              ∙ append_assoc first rest (take k later))
            ∙ decode_from-record fuel cursor good s first (rest ++ take k later)
                (acked ++ take n spans) ta.0 p e,
      )
