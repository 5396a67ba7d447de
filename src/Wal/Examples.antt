-- ===== src/Wal/Examples.antt =====
-- Runs of the log with a small codec: a span is written as its trace id.
use evald.Prelude.{
  ℕ, ◌+◌, ◌%◌, ◌^◌, ◌≡◌, refl, Option, none, some, List, [], ◌∷◌, ◌++◌, Text, bytes, arith, take,
}
use mathlib.Core.Path.{subst}
use evald.Prelude.Io.{ok, other_error}
use evald.Model.{NormalizedSpan}
use evald.Model.Examples.{test_span}
use evald.Wal.{
  Codec, Dir, Wal, whole, partial, append_nosync, append_bytes, record_at, encode_batch,
  encode_record, frame, to_le_bytes, from_le_bytes, read_segment,
}
use evald.Wal.Frames.{RoundTrips}
use evald.Wal.Recovery.{crash, read_segment-crash}
use evald.Wal.Damage.{read_segment-again}
use evald.Wal.Loss.{append_nosync-after_partial}

abbrev pub sum : Text → ℕ
sum [] = 1
sum (x ∷ xs) = x + sum xs

abbrev pub parse : Text → Option NormalizedSpan
parse [] = none
parse (x ∷ xs) = some (test_span (x ∷ xs) [] 0)

abbrev pub toy : Codec
toy = record {
  to_vec = λ s. some s.trace_id;
  from_slice = parse;
  crc32 = λ t. sum t % 2 ^ 32;
  crc32-lt = λ t. omega arith;
}

abbrev pub named : Text → NormalizedSpan
named id = test_span id [] 0

abbrev pub held : List NormalizedSpan
held = named (bytes "a") ∷ []

abbrev acked : List NormalizedSpan
acked = named (bytes "bb") ∷ []

abbrev further : List NormalizedSpan
further = named (bytes "ccc") ∷ []

abbrev pub stored : Text
stored = 1 ∷ 0 ∷ 0 ∷ 0 ∷ 98 ∷ 0 ∷ 0 ∷ 0 ∷ bytes "a"

abbrev pub log : Wal
log = record { dir = (0, stored) ∷ []; active_seqno = 0; active_count = 1 }

abbrev log_acked : Wal
log_acked = record {
  dir = (0, stored ++ (2 ∷ 0 ∷ 0 ∷ 0 ∷ 197 ∷ 0 ∷ 0 ∷ 0 ∷ bytes "bb")) ∷ [];
  active_seqno = 0;
  active_count = 2;
}

-- The log after five bytes of a failed write and a whole batch.
abbrev log_torn : Wal
log_torn = record {
  dir =
      (0, stored ++ (3 ∷ 0 ∷ 0 ∷ 0 ∷ 42 ∷ []) ++ (2 ∷ 0 ∷ 0 ∷ 0 ∷ 197 ∷ 0 ∷ 0 ∷ 0 ∷ bytes "bb"))
      ∷ [];
  active_seqno = 0;
  active_count = 2;
}

named-RoundTrips : (x : ℕ) (xs : Text) → RoundTrips toy (named (x ∷ xs))
named-RoundTrips x xs payload e =
    subst (λ (t : Text). parse t ≡ some (named (x ∷ xs))) {x = x ∷ xs} (cc e) refl

encodes_held : encode_batch toy held ≡ ok stored
unfolding encode_batch encode_record frame to_le_bytes
encodes_held = refl

appends : append_nosync toy log acked whole ≡ (ok 0, log_acked)
unfolding append_nosync append_bytes encode_batch encode_record frame to_le_bytes
appends = refl

appends_torn :
    append_nosync toy (append_nosync toy log further (partial 5 other_error)).1 acked whole
    ≡ (ok 0, log_torn)
unfolding append_nosync append_bytes encode_batch encode_record frame to_le_bytes
appends_torn = refl

read_segment-crash_example :
    (n : ℕ) × (dir : Dir) × (read_segment toy
        (crash (append_nosync toy log_acked further (partial 5 other_error)).1 22)
        0
      ≡ some ((held ++ acked) ++ take n further, dir))
read_segment-crash_example =
    read_segment-crash toy log log_acked held acked further stored whole (partial 5 other_error) 0
      22 (named-RoundTrips _ _, tt) (named-RoundTrips _ _, tt) (named-RoundTrips _ _, tt)
      encodes_held refl appends (omega arith)

abbrev further_bytes : Text
further_bytes = 3 ∷ 0 ∷ 0 ∷ 0 ∷ 42 ∷ 1 ∷ 0 ∷ 0 ∷ bytes "ccc"

abbrev acked_bytes : Text
acked_bytes = 2 ∷ 0 ∷ 0 ∷ 0 ∷ 197 ∷ 0 ∷ 0 ∷ 0 ∷ bytes "bb"

encodes_further : encode_batch toy further ≡ ok further_bytes
unfolding encode_batch encode_record frame to_le_bytes
encodes_further = refl

encodes_acked : encode_batch toy acked ≡ ok acked_bytes
unfolding encode_batch encode_record frame to_le_bytes
encodes_acked = refl

stops : record_at toy (take 5 further_bytes ++ acked_bytes) ≡ none
unfolding record_at from_le_bytes
stops = refl

append_nosync-after_partial_example :
    (dir : Dir) × (read_segment toy log_torn.dir 0 ≡ some (held, dir))
append_nosync-after_partial_example =
    append_nosync-after_partial toy log log_torn held acked [] (named (bytes "ccc")) stored
      further_bytes acked_bytes 5 0 other_error (named-RoundTrips _ _, tt) encodes_held refl
      encodes_further encodes_acked appends_torn stops

read_segment-again_example :
    (spans : List NormalizedSpan) × (dir : Dir) × (read_segment toy log_torn.dir 0
      ≡ some (spans, dir))
    × (read_segment toy dir 0 ≡ some (spans, dir))
read_segment-again_example = read_segment-again toy log_torn.dir 0
