-- ===== src/Recover/Segments.antt =====
-- What a restart reads from one segment, and what it leaves alone.
use evald.Prelude.{
  ℕ, ◌≡◌, refl, ◌∙◌, Bool, true, false, ◌&&◌, any, Option, none, some, List, [], ◌∷◌, Text, nat_eq,
  nat_beq, contains, length, take, ltb, if◌then◌else◌, arith, Option-cases, inl, inr,
}
use evald.Prelude.Maps.{nat_less, get, put, get-put}
use evald.Model.{NormalizedSpan}
use evald.Key.{SpanKey, key_eq}
use evald.Query.Distinct.{identities}
use evald.Wal.{Codec, Dir, decode_records, read_segment}
use evald.Wal.Recovery.{read_segment-eq}
use evald.Wal.Damage.{decode_records-Reads, read_missing}

abbrev spans_of : Option (List NormalizedSpan × ℕ) → List NormalizedSpan
spans_of none = []
spans_of (some (spans, size)) = spans

-- The spans that the log holds in a segment.
abbrev pub logged : Codec → Option Text → List NormalizedSpan
logged codec none = []
logged codec (some bytes) = spans_of (decode_records codec bytes)

abbrev Agree : ℕ → Dir → Dir → Type 0
Agree seqno dir dir' = (n : ℕ) → nat_beq seqno n ≡ false → get n dir' ≡ get n dir

cut-Agree :
    (seqno : ℕ) (dir : Dir) (bytes : Text) (b : Bool)
    → Agree seqno dir (if b then put seqno bytes dir else dir)
cut-Agree seqno dir bytes true n h = get-put seqno n bytes dir ∙ rw h refl
cut-Agree seqno dir bytes false n h = refl

-- Reading a segment returns what the log holds there and leaves the other segments alone.
pub read_segment-logged :
    (codec : Codec) (dir : Dir) (seqno : ℕ)
    → (dir' : Dir) × (read_segment codec dir seqno ≡ some (logged codec (get seqno dir), dir'))
      × Agree seqno dir dir'
read_segment-logged codec dir seqno = elim (Option-cases (get seqno dir)) [
  | inl missing ↦ (dir, read_missing codec seqno dir missing ∙ rw missing refl, λ n h. refl)
  | inr (bytes, e) ↦
      let (spans, size, within, whole, cut) = decode_records-Reads codec bytes in
      (
        (if ltb size (length bytes) then put seqno (take size bytes) dir else dir),
        read_segment-eq codec dir seqno bytes spans size e whole ∙ rw (e, whole) refl,
        cut-Agree seqno dir (take size bytes) (ltb size (length bytes)),
      )
]

-- Whether a segment above the watermark holds an identity in the log.
abbrev pub logs : Codec → ℕ → Dir → SpanKey → ℕ → Bool
logs codec watermark dir k n = ltb watermark n && contains (identities (logged codec (get n dir))) k

pub any-logs-Agree :
    (codec : Codec) (watermark : ℕ) (dir dir' : Dir) (k : SpanKey) (seqno : ℕ) (l : List ℕ)
    → contains l seqno ≡ false
    → Agree seqno dir dir'
    → any (logs codec watermark dir' k) l ≡ any (logs codec watermark dir k) l
any-logs-Agree codec watermark dir dir' k seqno [] h same = refl
any-logs-Agree codec watermark dir dir' k seqno (n ∷ l) h same =
    rw
      (same n (ground arith), any-logs-Agree codec watermark dir dir' k seqno l (ground arith) same)
      refl
