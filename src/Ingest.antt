-- ===== src/Ingest.antt =====
-- The way of a batch into the store, `ingest_batch`, `append`, `seal_now`, `reject_if_disk_full` and
-- `ingest_stats` of src/store/mod.rs. What becomes of a command on the writer's channel is an argument, and
-- `prepare_for_storage`, which redacts and offloads payloads, is a parameter.
pub mod Retry
pub mod Examples
use evald.Prelude.{
  ℕ, ◌+◌, ◌-◌, ◌%◌, ◌^◌, Bool, true, false, ◌&&◌, not, Option, none, some, List, [], ◌∷◌, ◌++◌,
  Text, length, nat_beq, leb, if◌then◌else◌,
}
use evald.Prelude.Io.{ErrorKind}
use evald.Model.{NormalizedSpan}
use evald.Hot.{HotTier, len}
use evald.Writer.{StoreError, backpressure, closed, io, disk_full, Cmd, append, seal_now}
use evald.Calls.{CallLedger, may_carry_keys, filter, remember}

-- What `try_send` finds, and what comes back: the channel is full or closed, or the writer answers,
-- or it goes away with the command.
pub data Sent : Type 0 where
  channel_full channel_closed writer_gone : Sent
  answered : Option StoreError → Sent

-- `map_try_send` and `recv_ack`
abbrev pub outcome_of : Sent → Option StoreError
outcome_of channel_full = some backpressure
outcome_of channel_closed = some closed
outcome_of writer_gone = some closed
outcome_of (answered answer) = answer

abbrev pub is_queued : Sent → Bool
is_queued channel_full = false
is_queued channel_closed = false
is_queued writer_gone = true
is_queued (answered answer) = true

-- The fields of `Store` that ingestion reads and writes, and the commands that reached the channel.
pub record Ingest : Type 0 where
  pub disk_blocked : Bool
  pub disk_free : ℕ
  pub disk_min_free_bytes : ℕ
  pub disk_blocked_spans : ℕ
  pub calls : CallLedger
  pub queued : List Cmd

abbrev pub with_blocked : Ingest → ℕ → Ingest
with_blocked st spans = record {
  disk_blocked = st.disk_blocked;
  disk_free = st.disk_free;
  disk_min_free_bytes = st.disk_min_free_bytes;
  disk_blocked_spans = (st.disk_blocked_spans + spans) % 2 ^ 64;
  calls = st.calls;
  queued = st.queued;
}

unfoldable pub reject_if_disk_full : Ingest → ℕ → Option StoreError × Ingest
reject_if_disk_full st spans =
    if nat_beq spans 0
    then (none, st)
    else if st.disk_blocked
    then (some (disk_full st.disk_free st.disk_min_free_bytes), with_blocked st spans)
    else (none, st)

abbrev pub send : Ingest → Cmd → Sent → Option StoreError × Ingest
send st cmd sent = (
  outcome_of sent,
  record {
    disk_blocked = st.disk_blocked;
    disk_free = st.disk_free;
    disk_min_free_bytes = st.disk_min_free_bytes;
    disk_blocked_spans = st.disk_blocked_spans;
    calls = st.calls;
    queued = if is_queued sent then st.queued ++ cmd ∷ [] else st.queued;
  },
)

abbrev pub sent_after : Option StoreError × Ingest → Cmd → Sent → Option StoreError × Ingest
sent_after (some refused, st) cmd sent = (some refused, st)
sent_after (none, st) cmd sent = send st cmd sent

-- `append`: the disk is looked at again, and an empty batch is no command.
unfoldable pub append_batch : Ingest → List NormalizedSpan → Sent → Option StoreError × Ingest
append_batch st [] sent = (none, st)
append_batch st (s ∷ rest) sent =
    sent_after (reject_if_disk_full st (length (s ∷ rest))) (append (s ∷ rest)) sent

-- `seal_now`
unfoldable pub seal_batch : Ingest → Sent → Option StoreError × Ingest
seal_batch st sent = send st seal_now sent

pub data Accepted : Type 0 where
  accepted : ℕ → Accepted
  refused : StoreError → Accepted

abbrev pub with_calls : Ingest → CallLedger → Ingest
with_calls st calls = record {
  disk_blocked = st.disk_blocked;
  disk_free = st.disk_free;
  disk_min_free_bytes = st.disk_min_free_bytes;
  disk_blocked_spans = st.disk_blocked_spans;
  calls = calls;
  queued = st.queued;
}

-- The batch that is left, and its keys.
abbrev pub filtered : Ingest → List NormalizedSpan → List NormalizedSpan × List Text × CallLedger
filtered st spans = if may_carry_keys spans then filter st.calls spans else (spans, [], st.calls)

-- After the append: the keys are remembered, and then the scores are stored.
abbrev pub finished :
    ℕ → List Text → Option ErrorKind → Option StoreError × Ingest → Accepted × Ingest
finished count keys scores (some e, st) = (refused e, st)
finished count keys (some kind) (none, st) =
    (refused (io kind), with_calls st (remember st.calls keys))
finished count keys none (none, st) = (accepted count, with_calls st (remember st.calls keys))

abbrev pub admitted :
    (List NormalizedSpan → List NormalizedSpan)
    → List NormalizedSpan
    → List Text
    → Option ErrorKind
    → Sent
    → Option StoreError × Ingest
    → Accepted × Ingest
admitted prepare spans keys scores sent (some e, st) = (refused e, st)
admitted prepare spans keys scores sent (none, st) =
    finished (length spans) keys scores (append_batch st (prepare spans) sent)

-- `ingest_batch`; `scores` is the error of storing the scores, if there was one.
unfoldable pub ingest_batch :
    (List NormalizedSpan → List NormalizedSpan)
    → Ingest
    → List NormalizedSpan
    → Option ErrorKind
    → Sent
    → Accepted × Ingest
ingest_batch prepare st spans scores sent =
    let (left, keys, calls) = filtered st spans in
    admitted prepare left keys scores sent (reject_if_disk_full (with_calls st calls) (length left))

-- `ingest_stats`, as far as its fields come from parts that are modelled. `u64::MAX` stands for an
-- unknown amount of free space.
pub record IngestStats : Type 0 where
  pub hot_spans : ℕ
  pub max_hot_spans : ℕ
  pub shedding : Bool
  pub disk_free_bytes : Option ℕ
  pub disk_blocked : Bool
  pub disk_blocked_spans : ℕ

unfoldable pub ingest_stats : Ingest → HotTier → ℕ → IngestStats
ingest_stats st hot max_hot_spans = record {
  hot_spans = len hot;
  max_hot_spans = max_hot_spans;
  shedding = not (nat_beq max_hot_spans 0) && leb max_hot_spans (len hot);
  disk_free_bytes = if nat_beq st.disk_free (2 ^ 64 - 1) then none else some st.disk_free;
  disk_blocked = st.disk_blocked;
  disk_blocked_spans = st.disk_blocked_spans;
}
