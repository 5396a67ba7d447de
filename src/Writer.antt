-- ===== src/Writer.antt =====
-- `writer_loop`, `seal` and the commands of src/store/mod.rs: the one task that appends to the log.
-- A round takes the commands that are queued, and answers them; how each write, the sync and each
-- rotation end is an argument. The usage metrics are not modelled.
pub mod Collect
pub mod Sound
pub mod Owed
pub mod Answers
pub mod Resident
pub mod Examples
use evald.Prelude.{
  ◌-◌, ◌%◌, ◌^◌, ℕ, zero, suc, ◌+◌, ◌≡◌, Bool, true, false, ◌&&◌, not, Option, none, some, List, [],
  ◌∷◌, ◌++◌, length, ltb, leb, nat_beq, nat_eq, if◌then◌else◌,
}
use evald.Prelude.Io.{ErrorKind, Result, ok, err}
use evald.Model.{NormalizedSpan}
use evald.Hot.{HotTier, push, len}
use evald.Wal.{Codec, Wal, Write, append_nosync, seal_and_rotate}

pub data StoreError : Type 0 where
  backpressure closed : StoreError
  io : ErrorKind → StoreError
  disk_full : ℕ → ℕ → StoreError

pub data Cmd : Type 0 where
  append : List NormalizedSpan → Cmd
  seal_now : Cmd

abbrev pub is_seal : Cmd → Bool
is_seal (append spans) = false
is_seal seal_now = true

-- The loop that fills `cmds` behind its last command: the commands it takes, and the queue it
-- leaves. It stops behind a seal, at `GROUP_COMMIT_MAX`, and at an empty queue.
abbrev pub group_commit_max : ℕ
group_commit_max = 128

unfoldable pub fill : ℕ → Cmd → List Cmd → List Cmd × List Cmd
fill zero last queue = ([], queue)
fill (suc room) last [] = ([], [])
fill (suc room) last (cmd ∷ queue) =
    let (more, left) = fill room cmd queue in
    if is_seal last then ([], cmd ∷ queue) else (cmd ∷ more, left)

unfoldable pub next_group : Cmd → List Cmd → List Cmd × List Cmd
unfolding fill
next_group first queue =
    let (more, left) = fill (group_commit_max - 1) first queue in (first ∷ more, left)

-- An answer to the command with a number: `none` is `Ok(())`.
abbrev pub Ack : Type 0
Ack = ℕ × Option StoreError

-- `PendingAppend`
pub record PendingAppend : Type 0 where
  pub seqno : ℕ
  pub spans : List NormalizedSpan
  pub ack : ℕ

pub record Writer : Type 0 where
  pub wal : Wal
  pub hot : HotTier
  pub active_seqno : ℕ
  pub rejections : ℕ
  pub ingested : ℕ

-- The locals of one round.
pub record Round : Type 0 where
  pub wal : Wal
  pub rejections : ℕ
  pub acks : List Ack
  pub pending : List PendingAppend
  pub seal_ack : Option ℕ

unfoldable pub is_over_limit : ℕ → HotTier → Bool
is_over_limit max_hot_spans hot = not (nat_beq max_hot_spans 0) && leb max_hot_spans (len hot)

abbrev pub appended : Round → ℕ → List NormalizedSpan → Result ℕ × Wal → Round
appended round id spans (ok seqno, wal) = record {
  wal = wal;
  rejections = round.rejections;
  acks = round.acks;
  pending = round.pending ++ record { seqno = seqno; spans = spans; ack = id } ∷ [];
  seal_ack = round.seal_ack;
}
appended round id spans (err kind, wal) = record {
  wal = wal;
  rejections = round.rejections;
  acks = round.acks ++ (id, some (io kind)) ∷ [];
  pending = round.pending;
  seal_ack = round.seal_ack;
}

abbrev pub rejected : Round → ℕ → List NormalizedSpan → Round
rejected round id spans = record {
  wal = round.wal;
  rejections = (round.rejections + length spans) % 2 ^ 64;
  acks = round.acks ++ (id, some backpressure) ∷ [];
  pending = round.pending;
  seal_ack = round.seal_ack;
}

-- One command of the round; `id` is its number.
unfoldable pub handle : Codec → Bool → (ℕ → Write) → Round → ℕ → Cmd → Round
handle codec over_limit writes round id (append spans) =
    if over_limit
    then rejected round id spans
    else appended round id spans (append_nosync codec round.wal spans (writes id))
handle codec over_limit writes round id seal_now = record {
  wal = round.wal;
  rejections = round.rejections;
  acks = round.acks;
  pending = round.pending;
  seal_ack = some id;
}

unfoldable pub handle_each : Codec → Bool → (ℕ → Write) → Round → ℕ → List Cmd → Round
unfolding handle
handle_each codec over_limit writes round id [] = round
handle_each codec over_limit writes round id (cmd ∷ rest) =
    handle_each codec over_limit writes (handle codec over_limit writes round id cmd) (suc id) rest

-- The accounting of one synced batch.
abbrev pub with_batch : Writer → PendingAppend → Writer
with_batch st p = record {
  wal = st.wal;
  hot = push st.hot p.seqno p.spans;
  active_seqno = st.active_seqno;
  rejections = st.rejections;
  ingested = (st.ingested + length p.spans) % 2 ^ 64;
}

-- The answers of a group that was synced: each batch becomes resident before it is acknowledged.
unfoldable pub publish_each : Writer → List PendingAppend → Writer × List Ack
publish_each st [] = (st, [])
publish_each st (p ∷ rest) =
    let (st'', acks) = publish_each (with_batch st p) rest in (st'', (p.ack, none) ∷ acks)

-- The answers of a group whose sync failed.
unfoldable pub fail_each : ErrorKind → List PendingAppend → List Ack
fail_each kind [] = []
fail_each kind (p ∷ rest) = (p.ack, some (io kind)) ∷ fail_each kind rest

abbrev pub rotated : Writer → Result ℕ × Wal → Option StoreError × Writer
rotated st (err kind, wal) = (
  some (io kind),
  record {
    wal = wal;
    hot = st.hot;
    active_seqno = st.active_seqno;
    rejections = st.rejections;
    ingested = st.ingested;
  },
)
rotated st (ok sealed, wal) = (
  none,
  record {
    wal = wal;
    hot = st.hot;
    active_seqno = wal.active_seqno;
    rejections = st.rejections;
    ingested = st.ingested;
  },
)

-- `seal`
unfoldable pub seal : Writer → Option ErrorKind → Option StoreError × Writer
seal st failure = rotated st (seal_and_rotate st.wal failure)

pub record Ends : Type 0 where
  pub writes : ℕ → Write
  pub sync : Option ErrorKind
  pub threshold_seal : Option ErrorKind
  pub command_seal : Option ErrorKind

abbrev pub is_pending : List PendingAppend → Bool
is_pending [] = false
is_pending (p ∷ rest) = true

abbrev pub synced : Option ErrorKind → Writer → List PendingAppend → Writer × List Ack
synced none st pending = publish_each st pending
synced (some kind) st pending = (st, fail_each kind pending)

-- The sync, and the rotation at the threshold; a failed rotation is only logged.
unfoldable pub commit_group : ℕ → Ends → Writer → List PendingAppend → Writer × List Ack
unfolding seal
commit_group seal_threshold ends st pending =
    let (st', acks) = synced ends.sync st pending in
    if is_pending pending
    then if leb seal_threshold st'.wal.active_count
      then ((seal st' ends.threshold_seal).1, acks)
      else (st', acks)
    else (st, [])

-- The answer to a seal command.
unfoldable pub answer_seal : Ends → Writer → Option ℕ → Writer × List Ack
unfolding seal
answer_seal ends st none = (st, [])
answer_seal ends st (some id) =
    let (answer, st') = seal st ends.command_seal in
    if nat_beq st.wal.active_count 0 then (st, (id, none) ∷ []) else (st', (id, answer) ∷ [])

module _ (codec : Codec) (seal_threshold max_hot_spans : ℕ) where
  -- One round of the loop, on the commands of its group.
  unfoldable pub run_group : Ends → Writer → List Cmd → Writer × List Ack
  unfolding handle_each commit_group answer_seal is_over_limit
  run_group ends st cmds =
      let start : Round = record {
        wal = st.wal;
        rejections = st.rejections;
        acks = [];
        pending = [];
        seal_ack = none;
      } in
      let round = handle_each codec (is_over_limit max_hot_spans st.hot) ends.writes start 0 cmds in
      let after : Writer = record {
        wal = round.wal;
        hot = st.hot;
        active_seqno = st.active_seqno;
        rejections = round.rejections;
        ingested = st.ingested;
      } in
      let (st', acks) = commit_group seal_threshold ends after round.pending in
      let (st'', last) = answer_seal ends st' round.seal_ack in (st'', round.acks ++ acks ++ last)
