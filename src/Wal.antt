-- ===== src/Wal.antt =====
-- src/store/wal.rs: the segmented write-ahead log. The directory is a map from a segment's number
-- to its bytes. `serde_json` and `crc32fast` are a parameter, and each call that the file system
-- may refuse takes how it ended as an argument.
pub mod Frames
pub mod Torn
pub mod Recovery
pub mod Damage
pub mod Loss
pub mod Examples
use evald.Prelude.{
  ℕ, zero, suc, ◌+◌, ◌*◌, ◌/◌, ◌%◌, ◌^◌, ◌<◌, ◌≡◌, Bool, true, false, Option, none, some, List, [],
  ◌∷◌, ◌++◌, Text, length, take, drop, ltb, leb, nat_beq, nat_eq, if◌then◌else◌,
}
use evald.Prelude.Io.{ErrorKind, invalid_data, Result, ok, err, ◌>>=◌}
use evald.Prelude.Maps.{Map, nat_less, get, put, delete, keys}
use evald.Model.{NormalizedSpan}

-- What the log takes from other crates.
pub record Codec : Type 0 where
  pub to_vec : NormalizedSpan → Option Text
  pub from_slice : Text → Option NormalizedSpan
  pub crc32 : Text → ℕ
  pub crc32-lt : (payload : Text) → crc32 payload < 2 ^ 32

abbrev pub frame_header_len : ℕ
frame_header_len = 8

-- `u32::to_le_bytes` and `u32::from_le_bytes`
unfoldable pub to_le_bytes : ℕ → Text
to_le_bytes n = (n % 256) ∷ (n / 256 % 256) ∷ (n / 65536 % 256) ∷ (n / 16777216 % 256) ∷ []

unfoldable pub from_le_bytes : Text → ℕ
from_le_bytes (a ∷ b ∷ c ∷ d ∷ _) = a + 256 * b + 65536 * c + 16777216 * d
from_le_bytes _ = 0

-- The bytes of one directory, by segment number.
abbrev pub Dir : Type 0
Dir = Map ℕ Text

pub record Wal : Type 0 where
  pub dir : Dir
  pub active_seqno : ℕ
  pub active_count : ℕ

-- How a write ended: whole, or with an error after some of the bytes.
pub data Write : Type 0 where
  whole : Write
  partial : ℕ → ErrorKind → Write

abbrev pub contents : Option Text → Text
contents none = []
contents (some bytes) = bytes

-- `open_segment_file`: created if absent, and appended to otherwise.
unfoldable pub open_segment_file : Dir → ℕ → Dir
open_segment_file dir seqno = put seqno (contents (get seqno dir)) dir

-- `Wal::open`
unfoldable pub open_wal : Dir → ℕ → Wal
unfolding open_segment_file
open_wal dir seqno = record {
  dir = open_segment_file dir seqno;
  active_seqno = seqno;
  active_count = 0;
}

-- `seal_and_rotate`; `failure` is the error of opening the next segment, if there was one.
unfoldable pub seal_and_rotate : Wal → Option ErrorKind → Result ℕ × Wal
unfolding open_segment_file
seal_and_rotate wal (some kind) = (err kind, wal)
seal_and_rotate wal none =
    let next = wal.active_seqno + 1 in
    (
      ok wal.active_seqno,
      record { dir = open_segment_file wal.dir next; active_seqno = next; active_count = 0 },
    )

-- `delete_segment`: a missing file is fine.
unfoldable pub delete_segment : Dir → ℕ → Dir
delete_segment dir seqno = delete seqno dir

-- `list_segment_seqnos`: the map is in ascending order.
unfoldable pub list_segment_seqnos : Dir → List ℕ
list_segment_seqnos dir = keys dir

module _ (codec : Codec) where
  open codec use {to_vec, from_slice, crc32}

  -- The frame of one payload: length, checksum, bytes.
  unfoldable pub frame : Text → Text
  frame payload = to_le_bytes (length payload) ++ to_le_bytes (crc32 payload) ++ payload

  abbrev frame_result : Option Text → Result Text
  frame_result none = err invalid_data
  frame_result (some payload) =
      if ltb (length payload) (2 ^ 32) then ok (frame payload) else err invalid_data

  -- `encode_record`, as the bytes that it adds to the buffer.
  unfoldable pub encode_record : NormalizedSpan → Result Text
  encode_record span = frame_result (to_vec span)

  -- The loop of `append_nosync` over the batch: the first span that fails ends it.
  unfoldable pub encode_batch : List NormalizedSpan → Result Text
  encode_batch [] = ok []
  encode_batch (span ∷ rest) =
      let later = encode_batch rest in do bytes ← encode_record span; buf ← later; ok (bytes ++ buf)

  append_bytes : Wal → Text → Dir
  append_bytes wal buf =
      put wal.active_seqno (contents (get wal.active_seqno wal.dir) ++ buf) wal.dir

  abbrev write_result : Wal → List NormalizedSpan → Write → Result Text → Result ℕ × Wal
  write_result wal spans write (err kind) = (err kind, wal)
  write_result wal spans (partial n kind) (ok buf) =
      (err kind, record wal { dir = append_bytes wal (take n buf) })
  write_result wal spans whole (ok buf) = (
    ok wal.active_seqno,
    record {
      dir = append_bytes wal buf;
      active_seqno = wal.active_seqno;
      active_count = wal.active_count + length spans;
    },
  )

  -- `append_nosync`: nothing is written unless every span encodes.
  unfoldable pub append_nosync : Wal → List NormalizedSpan → Write → Result ℕ × Wal
  unfolding append_bytes
  append_nosync wal [] write = (ok wal.active_seqno, wal)
  append_nosync wal (span ∷ rest) write =
      write_result wal (span ∷ rest) write (encode_batch (span ∷ rest))

  abbrev checked : Text → ℕ → Option NormalizedSpan → Option (NormalizedSpan × ℕ)
  checked payload size none = none
  checked payload size (some span) = some (span, size)

  -- One round of `decode_records` at the bytes from `cursor` on: a span and the size of its frame,
  -- or `none` where the source breaks. `checked_add` cannot overflow below the length of a slice.
  unfoldable pub record_at : Text → Option (NormalizedSpan × ℕ)
  record_at bytes =
      let len = from_le_bytes bytes in
      let crc = from_le_bytes (drop 4 bytes) in
      let payload = take len (drop frame_header_len bytes) in
      if leb frame_header_len (length bytes)
      then if leb (frame_header_len + len) (length bytes)
        then if nat_beq (crc32 payload) crc
          then checked payload (frame_header_len + len) (from_slice payload)
          else none
        else none
      else none

  -- The loop, on fuel, over the rest of the data; `none` means that the fuel ran out.
  unfoldable pub decode_from : ℕ → ℕ → Text → Option (List NormalizedSpan × ℕ)
  decode_from zero cursor bytes = none
  decode_from (suc fuel) cursor bytes = elim (record_at bytes) [
    | none ↦ some ([], cursor)
    | some (span, size) ↦ elim (decode_from fuel (cursor + size) (drop size bytes)) [
      | none ↦ none
      | some (spans, good) ↦ some (span ∷ spans, good)
    ]
  ]

  -- `decode_records`
  unfoldable pub decode_records : Text → Option (List NormalizedSpan × ℕ)
  decode_records bytes = decode_from (suc (length bytes)) 0 bytes

  -- `read_segment`: a torn tail is cut off the file. A missing segment reads as empty.
  unfoldable pub read_segment : Dir → ℕ → Option (List NormalizedSpan × Dir)
  read_segment dir seqno = elim (get seqno dir) [
    | none ↦ some ([], dir)
    | some bytes ↦ elim (decode_records bytes) [
      | none ↦ none
      | some (spans, good) ↦
          some (spans, if ltb good (length bytes) then put seqno (take good bytes) dir else dir)
    ]
  ]
