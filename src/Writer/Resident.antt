-- ===== src/Writer/Resident.antt =====
-- Acknowledged batches and the hot tier.
use evald.Prelude.{
  ℕ, ◌≡◌, refl, ap, ◌∙◌, sym, Bool, true, false, ◌||◌, any, Option, none, some, List, [], ◌∷◌, ◌++◌,
  All, nat_eq, nat_beq, nat_beq_iff, contains, leb, arith, Bool-cases, inl, inr,
}
use evald.Prelude.Io.{ErrorKind, Result, ok, err}
use evald.Prelude.Maps.{nat_less}
use evald.Model.{NormalizedSpan}
use evald.Key.{SpanKey, key_eq}
use evald.Hot.{HotTier, all_spans}
use evald.Query.Distinct.{identities}
use evald.Wal.{Codec, Wal, seal_and_rotate}
use evald.Writer.{
  Cmd, append, Ack, PendingAppend, Writer, Round, is_over_limit, handle_each, publish_each,
  fail_each, with_batch, rotated, seal, Ends, synced, commit_group, answer_seal, run_group,
}
use evald.Writer.Sound.{nth, is_acked, is_acked-append, IsBatch, IsSeal, Sound, handle_each-Sound}
use evald.Hot.Push.{contains-push}

abbrev in_pending : SpanKey → List PendingAppend → Bool
in_pending k = any (λ (p : PendingAppend). contains (identities p.spans) k)

contains-publish_each :
    (st : Writer) (pending : List PendingAppend) (k : SpanKey)
    → contains (identities (all_spans (publish_each st pending).0.hot)) k
      ≡ (contains (identities (all_spans st.hot)) k || in_pending k pending)
unfolding publish_each
contains-publish_each st [] k = ground arith
contains-publish_each st (p ∷ rest) k =
    contains-publish_each (with_batch st p) rest k
    ∙ ground (arith, contains-push st.hot p.seqno p.spans k)

is_acked-publish_each :
    (st : Writer) (pending : List PendingAppend) (i : ℕ)
    → is_acked (publish_each st pending).1 i ≡ any (λ (p : PendingAppend). nat_beq p.ack i) pending
unfolding publish_each
is_acked-publish_each st [] i = refl
is_acked-publish_each st (p ∷ rest) i =
    ground (arith, is_acked-publish_each (with_batch st p) rest i)

is_acked-fail_each :
    (kind : ErrorKind) (pending : List PendingAppend) (i : ℕ)
    → is_acked (fail_each kind pending) i ≡ false
unfolding fail_each
is_acked-fail_each kind [] i = refl
is_acked-fail_each kind (p ∷ rest) i = ground (arith, is_acked-fail_each kind rest i)

-- The batch of an acknowledged command is one of the pending ones.
in_pending_of :
    (whole : List Cmd) (pending : List PendingAppend) (i : ℕ) (spans : List NormalizedSpan)
    (k : SpanKey)
    → All (IsBatch whole) pending
    → any (λ (p : PendingAppend). nat_beq p.ack i) pending ≡ true
    → nth whole i ≡ some (append spans)
    → contains (identities spans) k ≡ true
    → in_pending k pending ≡ true
in_pending_of whole [] i spans k batches found e h = found
in_pending_of whole (p ∷ rest) i spans k batches found e h = elim (Bool-cases (nat_beq p.ack i)) [
  | inl here ↦
      let named : nth whole p.ack ≡ some (append spans) =
        ap (nth whole) ((nat_beq_iff p.ack i).0 here) ∙ e in
      let same : p.spans ≡ spans = cc (named, batches.0) in
      let mine : contains (identities p.spans) k ≡ true =
        ap (λ (l : List NormalizedSpan). contains (identities l) k) same ∙ h in
      ground (arith, mine)
  | inr there ↦ ground (arith, in_pending_of whole rest i spans k batches.1)
]

hot-seal : (st : Writer) (failure : Option ErrorKind) → (seal st failure).1.hot ≡ st.hot
unfolding seal
hot-seal st failure = rotated_hot st (seal_and_rotate st.wal failure)
  where
    rotated_hot : (st : Writer) (r : Result ℕ × Wal) → (rotated st r).1.hot ≡ st.hot
    rotated_hot st (err kind, wal) = refl
    rotated_hot st (ok sealed, wal) = refl

-- The answers of a group, and the tier behind them.
abbrev Shown : List Cmd → HotTier → List Ack → Type 0
Shown whole hot acks =
    (i : ℕ) (spans : List NormalizedSpan) (k : SpanKey)
    → is_acked acks i ≡ true
    → nth whole i ≡ some (append spans)
    → contains (identities spans) k ≡ true
    → contains (identities (all_spans hot)) k ≡ true

synced-Shown :
    (whole : List Cmd) (failure : Option ErrorKind) (st : Writer) (pending : List PendingAppend)
    → All (IsBatch whole) pending
    → Shown whole (synced failure st pending).0.hot (synced failure st pending).1
synced-Shown whole none st pending batches i spans k acked e h =
    contains-publish_each st pending k
    ∙ ground (
      arith,
      in_pending_of whole pending i spans k batches
          (sym (is_acked-publish_each st pending i) ∙ acked) e h,
    )
synced-Shown whole (some kind) st pending batches i spans k acked e h =
    ground (arith, acked, is_acked-fail_each kind pending i)

hot-commit_group :
    (seal_threshold : ℕ) (ends : Ends) (st : Writer) (p : PendingAppend) (rest : List PendingAppend)
    → (commit_group seal_threshold ends st (p ∷ rest)).0.hot
      ≡ (synced ends.sync st (p ∷ rest)).0.hot
unfolding commit_group
hot-commit_group seal_threshold ends st p rest =
    let done = synced ends.sync st (p ∷ rest) in
    elim (Bool-cases (leb seal_threshold done.0.wal.active_count)) [
      | inr below ↦ rw below refl
      | inl full ↦ rw full (hot-seal done.0 ends.threshold_seal)
    ]

pub acks-commit_group :
    (seal_threshold : ℕ) (ends : Ends) (st : Writer) (p : PendingAppend) (rest : List PendingAppend)
    → (commit_group seal_threshold ends st (p ∷ rest)).1 ≡ (synced ends.sync st (p ∷ rest)).1
unfolding commit_group
acks-commit_group seal_threshold ends st p rest =
    elim (Bool-cases (leb seal_threshold (synced ends.sync st (p ∷ rest)).0.wal.active_count)) [
      | inr below ↦ rw below refl
      | inl full ↦ rw full refl
    ]

commit_group-Shown :
    (whole : List Cmd) (seal_threshold : ℕ) (ends : Ends) (st : Writer)
    (pending : List PendingAppend)
    → All (IsBatch whole) pending
    → Shown whole
        (commit_group seal_threshold ends st pending).0.hot
        (commit_group seal_threshold ends st pending).1
commit_group-Shown whole seal_threshold ends st [] batches i spans k acked e h =
    absurd (unfold commit_group in ground (arith, acked))
commit_group-Shown whole seal_threshold ends st (p ∷ rest) batches i spans k acked e h =
    ap (λ (t : HotTier). contains (identities (all_spans t)) k)
      (hot-commit_group seal_threshold ends st p rest)
    ∙ synced-Shown whole ends.sync st (p ∷ rest) batches i spans k
        (ap (λ (a : List Ack). is_acked a i) (sym (acks-commit_group seal_threshold ends st p rest))
          ∙ acked)
        e h

is_acked-between :
    (a b c : List Ack) (i : ℕ)
    → is_acked a i ≡ false
    → is_acked c i ≡ false
    → is_acked (a ++ b ++ c) i ≡ true
    → is_acked b i ≡ true
is_acked-between a b c i e f h = ground (arith, is_acked-append (a ++ b) c i, is_acked-append a b i)

-- What the answer to a seal acknowledges, and what it leaves of the tier.
is_acked-answer_seal :
    (whole : List Cmd) (ends : Ends) (st : Writer) (o : Option ℕ) (i : ℕ)
    (spans : List NormalizedSpan)
    → IsSeal whole o
    → nth whole i ≡ some (append spans)
    → is_acked (answer_seal ends st o).1 i ≡ false
unfolding answer_seal
is_acked-answer_seal whole ends st none i spans seals e = refl
is_acked-answer_seal whole ends st (some id) i spans seals e = elim (Bool-cases (nat_beq id i)) [
  | inl here ↦ absurd (ground (arith, ap (nth whole) ((nat_beq_iff id i).0 here)))
  | inr there ↦ elim (Bool-cases (nat_beq st.wal.active_count 0)) [
    | inl nothing ↦ rw (nothing, there) refl
    | inr some_spans ↦ rw (some_spans, there) refl
  ]
]

hot-answer_seal :
    (ends : Ends) (st : Writer) (o : Option ℕ) → (answer_seal ends st o).0.hot ≡ st.hot
unfolding answer_seal
hot-answer_seal ends st none = refl
hot-answer_seal ends st (some id) = elim (Bool-cases (nat_beq st.wal.active_count 0)) [
  | inl nothing ↦ rw nothing refl
  | inr some_spans ↦ rw some_spans (hot-seal st ends.command_seal)
]

-- A batch that a round acknowledges is in the hot tier behind the round, whichever of its writes,
-- of the sync and of the rotations fail: every identity of the batch is resident.
pub run_group-Shown :
    (codec : Codec) (seal_threshold max_hot_spans : ℕ) (ends : Ends) (st : Writer) (cmds : List Cmd)
    (i : ℕ) (spans : List NormalizedSpan) (k : SpanKey)
    → is_acked (run_group codec seal_threshold max_hot_spans ends st cmds).1 i ≡ true
    → nth cmds i ≡ some (append spans)
    → contains (identities spans) k ≡ true
    → contains
        (identities (all_spans (run_group codec seal_threshold max_hot_spans ends st cmds).0.hot))
        k
      ≡ true
unfolding run_group
run_group-Shown codec seal_threshold max_hot_spans ends st cmds i spans k acked e h =
    ap (λ (t : HotTier). contains (identities (all_spans t)) k)
      (hot-answer_seal ends committed.0 round.seal_ack)
    ∙ commit_group-Shown cmds seal_threshold ends after round.pending sound.batches i spans k
        (is_acked-between round.acks committed.1 last i (sound.unanswered i)
          (is_acked-answer_seal cmds ends committed.0 round.seal_ack i spans sound.seals e) acked)
        e h
  where
    over_limit : Bool
    over_limit = is_over_limit max_hot_spans st.hot

    start : Round
    start = record {
      wal = st.wal;
      rejections = st.rejections;
      acks = [];
      pending = [];
      seal_ack = none;
    }

    round : Round
    round = handle_each codec over_limit ends.writes start 0 cmds

    sound : Sound cmds round
    sound =
        handle_each-Sound codec over_limit ends.writes cmds [] start 0 cmds refl refl
          (record { unanswered = λ j. refl; batches = tt; seals = tt })

    after : Writer
    after = record {
      wal = round.wal;
      hot = st.hot;
      active_seqno = st.active_seqno;
      rejections = round.rejections;
      ingested = st.ingested;
    }

    committed : Writer × List Ack
    committed = commit_group seal_threshold ends after round.pending

    last : List Ack
    last = (answer_seal ends committed.0 round.seal_ack).1
