-- ===== src/Key.antt =====
-- The identity of a span for de-duplication: `SpanKey`, `key_of`, `span_key` and `decode_hex` of
-- src/store/mod.rs.
pub mod Hex
pub mod Injective
pub mod Examples
use evald.Prelude.{
  ℕ, ◌+◌, ◌-◌, ◌*◌, Bool, true, false, ◌&&◌, ◌≡◌, ◌↔◌, Option, none, some, List, [], ◌∷◌, ◌++◌,
  Text, Eq, text_beq, text_beq_iff, leb, nat_beq, length, if◌then◌else◌, arith,
}
use evald.Prelude.Options.{◌>>=◌}
use evald.Model.{NormalizedSpan}

-- `nibble`: lower case only.
nibble : ℕ → Option ℕ
nibble c =
    if leb b'0' c && leb c b'9'
    then some (c - b'0')
    else if leb b'a' c && leb c b'f'
    then some (c - b'a' + 10)
    else none

-- The loop over `out`: `(hi << 4) | lo` is `hi * 16 + lo`, since `lo` is below 16.
decode_pairs : Text → Option (List ℕ)
unfolding nibble
decode_pairs [] = some []
decode_pairs (a ∷ []) = none
decode_pairs (a ∷ b ∷ rest) =
    let out = decode_pairs rest in
    do hi ← nibble a; lo ← nibble b; bytes ← out; some ((hi * 16 + lo) ∷ bytes)

-- `decode_hex::<N>`
unfoldable pub decode_hex : ℕ → Text → Option (List ℕ)
unfolding decode_pairs
decode_hex n s = if nat_beq (length s) (n * 2) then decode_pairs s else none

pub data SpanKey : Type 0 where
  otlp : List ℕ → SpanKey
  other : Text → Text → SpanKey

abbrev join_ids : Text → Text → Option (List ℕ) → Option (List ℕ) → SpanKey
join_ids trace_id span_id (some trace) (some span) = otlp (trace ++ span)
join_ids trace_id span_id _ _ = other trace_id span_id

unfoldable pub key_of : Text → Text → SpanKey
key_of trace_id span_id = join_ids trace_id span_id (decode_hex 16 trace_id) (decode_hex 8 span_id)

unfoldable pub span_key : NormalizedSpan → SpanKey
unfolding key_of
span_key s = key_of s.trace_id s.span_id

-- The derived `PartialEq`, which the hash sets use.
abbrev pub key_beq : SpanKey → SpanKey → Bool
key_beq (otlp a) (otlp b) = text_beq a b
key_beq (other t s) (other u v) = if text_beq t u then text_beq s v else false
key_beq _ _ = false

pub key_beq_iff : (a b : SpanKey) → (key_beq a b ≡ true) ↔ (a ≡ b)
key_beq_iff (otlp a) (otlp b) = ground (arith, text_beq_iff a b)
key_beq_iff (other t s) (other u v) = ground (arith, text_beq_iff t u, text_beq_iff s v)
key_beq_iff (otlp a) (other u v) = ground arith
key_beq_iff (other t s) (otlp b) = ground arith

instance abbrev pub key_eq : Eq SpanKey
key_eq = record { beq = key_beq; beq_iff = key_beq_iff }
