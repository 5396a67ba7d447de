-- ===== src/Wal/Frames.antt =====
-- One frame of the log, written and read back.
use evald.Prelude.{
  ℕ, suc, ◌+◌, ◌-◌, ◌^◌, ◌≤◌, ◌<◌, ◌≡◌, refl, ap, ◌∙◌, false, Option, none, some, [], ◌∷◌, ◌++◌,
  Text, length, take, drop, leb, Bool-cases, inl, inr, arith, length-append, length-take,
  take-append, le→leb, leb→le, nat_beq_iff,
}
use evald.Prelude.Io.{ok}
use evald.Model.{NormalizedSpan}
use evald.Wal.{Codec, to_le_bytes, from_le_bytes, frame, frame_result, encode_record, record_at}

from_le_bytes-to_le_bytes :
    (n : ℕ) (rest : Text) → n < 2 ^ 32 → from_le_bytes (to_le_bytes n ++ rest) ≡ n
unfolding from_le_bytes to_le_bytes
from_le_bytes-to_le_bytes n rest h = omega arith

from_le_bytes-take_four :
    (j : ℕ) (b : Text) → from_le_bytes (take (suc (suc (suc (suc j)))) b) ≡ from_le_bytes b
unfolding from_le_bytes
from_le_bytes-take_four j [] = refl
from_le_bytes-take_four j (x ∷ []) = refl
from_le_bytes-take_four j (x ∷ y ∷ []) = refl
from_le_bytes-take_four j (x ∷ y ∷ z ∷ []) = refl
from_le_bytes-take_four j (x ∷ y ∷ z ∷ w ∷ b) = refl

pub from_le_bytes-take : (k : ℕ) (b : Text) → 4 ≤ k → from_le_bytes (take k b) ≡ from_le_bytes b
from_le_bytes-take k b h =
    ap (λ (n : ℕ). from_le_bytes (take n b))
      (let e : k ≡ suc (suc (suc (suc (k - 4)))) = omega arith in e)
    ∙ from_le_bytes-take_four (k - 4) b

not_leb→lt : (a b : ℕ) → leb a b ≡ false → b < a
not_leb→lt a b h = ground arith

module _ (codec : Codec) where
  open codec use {to_vec, from_slice, crc32, crc32-lt}

  pub length-frame : (payload : Text) → length (frame codec payload) ≡ 8 + length payload
  unfolding frame to_le_bytes
  length-frame payload = omega arith

  -- A round that reads a record, from its parts.
  pub record_at-eq :
      (bytes payload : Text) (len : ℕ) (span : NormalizedSpan)
      → from_le_bytes bytes ≡ len
      → from_le_bytes (drop 4 bytes) ≡ crc32 payload
      → take len (drop 8 bytes) ≡ payload
      → 8 + len ≤ length bytes
      → from_slice payload ≡ some span
      → record_at codec bytes ≡ some (span, 8 + len)
  unfolding record_at
  record_at-eq bytes payload len span l c t fits e = rw (
    l,
    c,
    t,
    le→leb 8 (length bytes) (omega arith),
    le→leb (8 + len) (length bytes) fits,
    (nat_beq_iff (crc32 payload) (crc32 payload)).1 refl,
    e,
  )

  -- The frame of a payload that parses is read back, whatever follows it.
  pub record_at-frame :
      (payload rest : Text) (span : NormalizedSpan)
      → length payload < 2 ^ 32
      → from_slice payload ≡ some span
      → record_at codec (frame codec payload ++ rest) ≡ some (span, 8 + length payload)
  record_at-frame payload rest span h e =
      record_at-eq (frame codec payload ++ rest) payload (length payload) span
        (unfold frame to_le_bytes in from_le_bytes-to_le_bytes (length payload) _ h)
        (unfold frame to_le_bytes in from_le_bytes-to_le_bytes (crc32 payload) _ (crc32-lt payload))
        (unfold frame to_le_bytes in take-append payload rest)
        (omega (arith, length-append {0} (frame codec payload) rest, length-frame payload)) e

  length-take-frame :
      (k : ℕ) (payload : Text) → k < 8 + length payload → length (take k (frame codec payload)) ≡ k
  length-take-frame k payload h =
      omega (arith, length-take {0} k (frame codec payload), length-frame payload)

  record_at_below : (bytes : Text) → length bytes < 8 → record_at codec bytes ≡ none
  unfolding record_at
  record_at_below bytes h = ground arith

  -- Data that is shorter than its own header says holds no record.
  record_at_short :
      (bytes : Text) → length bytes < 8 + from_le_bytes bytes → record_at codec bytes ≡ none
  unfolding record_at
  record_at_short bytes h = ground arith

  from_le_bytes-frame :
      (payload : Text)
      → length payload < 2 ^ 32
      → from_le_bytes (frame codec payload) ≡ length payload
  unfolding frame to_le_bytes
  from_le_bytes-frame payload h = from_le_bytes-to_le_bytes (length payload) _ h

  -- A frame cut short is not read as a record.
  pub record_at-take-frame :
      (k : ℕ) (payload : Text)
      → length payload < 2 ^ 32
      → k < 8 + length payload
      → record_at codec (take k (frame codec payload)) ≡ none
  record_at-take-frame k payload h short = elim (Bool-cases (leb 4 k)) [
    | inr below ↦
        record_at_below (take k (frame codec payload))
          (omega (arith, length-take-frame k payload short, not_leb→lt 4 k below))
    | inl header ↦ record_at_short (take k (frame codec payload)) (
        omega (
          arith,
          length-take-frame k payload short,
          from_le_bytes-take k (frame codec payload) (leb→le 4 k header),
          from_le_bytes-frame payload h,
        ))
  ]

  -- A span that serde writes and reads back as itself.
  abbrev pub RoundTrips : NormalizedSpan → Type 0
  RoundTrips span = (payload : Text) → to_vec span ≡ some payload → from_slice payload ≡ some span

  frame_result-eq_ok :
      (o : Option Text) (bytes : Text)
      → frame_result codec o ≡ ok bytes
      → (payload : Text) × (o ≡ some payload)
        × (length payload < 2 ^ 32)
        × (frame codec payload ≡ bytes)
  frame_result-eq_ok none bytes h = cc h
  frame_result-eq_ok (some payload) bytes h = (payload, refl, ground arith, ground arith)

  -- An encoded record is the frame of a payload that is short enough.
  pub encode_record-eq_ok :
      (span : NormalizedSpan) (bytes : Text)
      → encode_record codec span ≡ ok bytes
      → (payload : Text) × (to_vec span ≡ some payload)
        × (length payload < 2 ^ 32)
        × (frame codec payload ≡ bytes)
  unfolding encode_record
  encode_record-eq_ok span bytes h = frame_result-eq_ok (to_vec span) bytes h
