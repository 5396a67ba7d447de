-- ===== src/Wal/Damage.antt =====
-- What a read keeps of a segment of arbitrary bytes.
use evald.Prelude.{
  ℕ, zero, suc, ◌+◌, ◌-◌, ◌≤◌, ◌<◌, ◌≡◌, refl, ap, ◌∙◌, sym, true, false, none, some, List, [], ◌∷◌,
  Text, length, take, drop, ltb, Bool-cases, Option-cases, inl, inr, arith, length-take,
  length-drop, nat_eq,
}
use evald.Prelude.Maps.{nat_less, get, put}
use evald.Model.{NormalizedSpan}
use Prim.Native.Nat.add
use native.Mathlib.Nat.{add_assoc, add-zero}
use evald.Wal.{Codec, Dir, from_le_bytes, record_at, decode_from, decode_records, read_segment}
use evald.Wal.Frames.{record_at-eq, from_le_bytes-take}
use evald.Wal.Recovery.{read_segment-eq, get-put_self}
use evald.Wal.Torn.{decode_from-step, decode_from-stop, take_nil}

drop_nil {ℓ} : {A : Type ℓ} (k n : ℕ) → drop {A = A} (suc k) (take n []) ≡ []
drop_nil k zero = refl
drop_nil k (suc n) = refl

drop-take {ℓ} : {A : Type ℓ} (k m : ℕ) (xs : List A) → drop k (take (k + m) xs) ≡ take m (drop k xs)
drop-take zero m xs = ap (λ (n : ℕ). take n xs) (add.zero m)
drop-take (suc k) m [] = drop_nil k (suc k + m) ∙ sym (take_nil m)
drop-take (suc k) m (x ∷ xs) =
    ap (λ (n : ℕ). drop (suc k) (take n (x ∷ xs))) (add.suc k m) ∙ drop-take k m xs

take-take_more {ℓ} : {A : Type ℓ} (k m : ℕ) (xs : List A) → k ≤ m → take k (take m xs) ≡ take k xs
take-take_more zero m xs h = refl
take-take_more (suc k) zero xs h = absurd (omega arith)
take-take_more (suc k) (suc m) [] h = refl
take-take_more (suc k) (suc m) (x ∷ xs) h = ap (◌∷◌ x) (take-take_more k m xs (omega arith))

module _ (codec : Codec) where
  open codec use {from_slice, crc32}

  -- What a round that reads a record has checked.
  record_at-inv :
      (bytes : Text) (span : NormalizedSpan) (size : ℕ)
      → record_at codec bytes ≡ some (span, size)
      → (size ≡ 8 + from_le_bytes bytes)
        × (size ≤ length bytes)
        × (crc32 (take (from_le_bytes bytes) (drop 8 bytes)) ≡ from_le_bytes (drop 4 bytes))
        × (from_slice (take (from_le_bytes bytes) (drop 8 bytes)) ≡ some span)
  unfolding record_at
  record_at-inv bytes span size h =
      elim (Option-cases (from_slice (take (from_le_bytes bytes) (drop 8 bytes)))) [
        | inl e ↦ absurd (ground arith)
        | inr (s, e) ↦ (ground arith, ground arith, ground arith, ground arith)
      ]

  -- The bytes behind a record do not matter to it.
  record_at-take :
      (bytes : Text) (span : NormalizedSpan) (size m : ℕ)
      → record_at codec bytes ≡ some (span, size)
      → size ≤ m
      → m ≤ length bytes
      → record_at codec (take m bytes) ≡ some (span, size)
  record_at-take bytes span size m h fits within =
      let (sized, inside, sum, parsed) = record_at-inv bytes span size h in
      let len = from_le_bytes bytes in
      let cut : m ≡ 8 + (m - 8) = omega arith in
      let cut' : m ≡ 4 + (m - 4) = omega arith in
      let payload : take len (drop 8 (take m bytes)) ≡ take len (drop 8 bytes) =
        ap (λ (n : ℕ). take len (drop 8 (take n bytes))) cut
        ∙ ap (take len) (drop-take 8 (m - 8) bytes)
        ∙ take-take_more len (m - 8) (drop 8 bytes) (omega arith) in
      let crc : from_le_bytes (drop 4 (take m bytes)) ≡ from_le_bytes (drop 4 bytes) =
        ap (λ (n : ℕ). from_le_bytes (drop 4 (take n bytes))) cut'
        ∙ ap from_le_bytes (drop-take 4 (m - 4) bytes)
        ∙ from_le_bytes-take (m - 4) (drop 4 bytes) (omega arith) in
      record_at-eq codec (take m bytes) (take len (drop 8 bytes)) len span
        (from_le_bytes-take m bytes (omega arith)) (crc ∙ sym sum) payload
        (omega (arith, length-take {0} m bytes)) parsed
      ∙ ap (λ (n : ℕ). some (span, n)) (sym sized)

  abbrev Reads : ℕ → ℕ → Text → Type 0
  Reads fuel cursor bytes =
      (spans : List NormalizedSpan) × (size : ℕ) × (size ≤ length bytes)
      × (decode_from codec fuel cursor bytes ≡ some (spans, cursor + size))
      × (decode_from codec fuel cursor (take size bytes) ≡ some (spans, cursor + size))

  -- The loop ends on all data, at a record boundary at which the file can be cut.
  decode_from-Reads :
      (fuel cursor : ℕ) (bytes : Text) → length bytes < fuel → Reads fuel cursor bytes
  decode_from-Reads zero cursor bytes h = absurd (omega arith)
  decode_from-Reads (suc fuel) cursor bytes h = elim (Option-cases (record_at codec bytes)) [
    | inl e ↦ (
      [],
      0,
      omega arith,
      decode_from-stop codec fuel cursor bytes e
          ∙ ap (λ (n : ℕ). some ([], n)) (sym (add-zero cursor)),
      decode_from-stop codec fuel cursor [] (unfold record_at in refl)
          ∙ ap (λ (n : ℕ). some ([], n)) (sym (add-zero cursor)),
    )
    | inr ((span, size), e) ↦
        let (sized, inside, _, _) = record_at-inv bytes span size e in
        let (spans, more, within, all, cut) =
          decode_from-Reads fuel (cursor + size) (drop size bytes)
            (omega (arith, length-drop {0} size bytes)) in
        let total : size + more ≤ length bytes = omega (arith, length-drop {0} size bytes) in
        let sum : some (span ∷ spans, cursor + size + more)
            ≡ some (span ∷ spans, cursor + (size + more)) =
          ap (λ (n : ℕ). some (span ∷ spans, n)) (add_assoc cursor size more) in
        (
          span ∷ spans,
          size + more,
          total,
          decode_from-step codec fuel cursor size (cursor + size + more) bytes span spans e all
              ∙ sum,
          decode_from-step codec fuel cursor size (cursor + size + more) (take (size + more) bytes)
                span spans (record_at-take bytes span size (size + more) e (omega arith) total)
                (ap (decode_from codec fuel (cursor + size)) (drop-take size more bytes) ∙ cut)
              ∙ sum,
        )
  ]

  -- More fuel changes nothing.
  decode_from-more :
      (fuel more cursor : ℕ) (bytes : Text) (r : List NormalizedSpan × ℕ)
      → fuel ≤ more
      → decode_from codec fuel cursor bytes ≡ some r
      → decode_from codec more cursor bytes ≡ some r
  unfolding decode_from
  decode_from-more zero more cursor bytes r h e = cc e
  decode_from-more (suc fuel) zero cursor bytes r h e = absurd (omega arith)
  decode_from-more (suc fuel) (suc more) cursor bytes r h e =
      elim (Option-cases (record_at codec bytes)) [
        | inl f ↦ ground arith
        | inr ((span, size), f) ↦
            elim (Option-cases (decode_from codec fuel (cursor + size) (drop size bytes))) [
              | inl g ↦ absurd (ground arith)
              | inr (p, g) ↦
                  ground (arith, decode_from-more fuel more (cursor + size) (drop size bytes) p)
            ]
      ]

  pub decode_records-Reads :
      (bytes : Text)
      → (spans : List NormalizedSpan) × (size : ℕ) × (size ≤ length bytes)
        × (decode_records codec bytes ≡ some (spans, size))
        × (decode_records codec (take size bytes) ≡ some (spans, size))
  unfolding decode_records
  decode_records-Reads bytes =
      let (spans, size, within, e, cut) =
        decode_from-Reads (suc (length bytes)) 0 bytes (omega arith) in
      let short = take size bytes in
      let (spans', size', _, e', _) =
        decode_from-Reads (suc (length short)) 0 short (omega arith) in
      let same =
        decode_from-more (suc (length short)) (suc (length bytes)) 0 short (spans', 0 + size')
          (omega (arith, length-take {0} size bytes)) e' in
      let zero_add = add.zero size in
      (
        spans,
        size,
        within,
        e ∙ ap (λ (n : ℕ). some (spans, n)) zero_add,
        e' ∙ sym same ∙ cut ∙ ap (λ (n : ℕ). some (spans, n)) zero_add,
      )

module _ (codec : Codec) (seqno : ℕ) where
  pub read_missing :
      (dir : Dir) → get seqno dir ≡ none → read_segment codec dir seqno ≡ some ([], dir)
  unfolding read_segment
  read_missing dir e = rw (e, read_segment) refl

  read_kept :
      (d : Dir) (bytes : Text) (spans : List NormalizedSpan) (size : ℕ)
      → get seqno d ≡ some bytes
      → decode_records codec bytes ≡ some (spans, size)
      → ltb size (length bytes) ≡ false
      → read_segment codec d seqno ≡ some (spans, d)
  read_kept d bytes spans size e f g =
      read_segment-eq codec d seqno bytes spans size e f ∙ rw g refl

  read_cut :
      (d : Dir) (bytes : Text) (spans : List NormalizedSpan) (size : ℕ)
      → get seqno d ≡ some bytes
      → decode_records codec bytes ≡ some (spans, size)
      → ltb size (length bytes) ≡ true
      → read_segment codec d seqno ≡ some (spans, put seqno (take size bytes) d)
  read_cut d bytes spans size e f g = read_segment-eq codec d seqno bytes spans size e f ∙ rw g refl

-- Reading a segment always ends, whatever bytes it holds, and leaves a segment that reads as the
-- same spans with nothing left to cut: a second recovery finds what the first one found.
pub read_segment-again :
    (codec : Codec) (dir : Dir) (seqno : ℕ)
    → (spans : List NormalizedSpan) × (dir' : Dir) × (read_segment codec dir seqno
        ≡ some (spans, dir'))
      × (read_segment codec dir' seqno ≡ some (spans, dir'))
read_segment-again codec dir seqno = elim (Option-cases (get seqno dir)) [
  | inl missing ↦
      ([], dir, read_missing codec seqno dir missing, read_missing codec seqno dir missing)
  | inr (bytes, e) ↦
      let (spans, size, within, whole, cut) = decode_records-Reads codec bytes in
      elim (Bool-cases (ltb size (length bytes))) [
        | inr kept ↦ (
          spans,
          dir,
          read_kept codec seqno dir bytes spans size e whole kept,
          read_kept codec seqno dir bytes spans size e whole kept,
        )
        | inl torn ↦
            let short = take size bytes in
            (
              spans,
              put seqno short dir,
              read_cut codec seqno dir bytes spans size e whole torn,
              read_kept codec seqno (put seqno short dir) short spans size
                  (get-put_self seqno short dir) cut (ground (arith, length-take {0} size bytes)),
            )
      ]
]
