-- ===== src/Writer/Answers.antt =====
-- The answers of a round.
use evald.Prelude.{
  ℕ, suc, ◌+◌, ◌≡◌, refl, ap, ◌∙◌, ◌||◌, Option, none, some, List, [], ◌∷◌, ◌++◌, map, length,
  nat_eq, nat_beq, ltb, arith, Bool-cases, inl, inr, length-append, contains,
}
use evald.Prelude.Io.{ErrorKind}
use evald.Wal.{Codec}
use evald.Writer.{
  Cmd, Ack, PendingAppend, Writer, Round, is_over_limit, handle_each, publish_each, fail_each,
  with_batch, Ends, synced, commit_group, answer_seal, run_group,
}
use evald.Writer.Collect.{SealsLast}
use evald.Writer.Resident.{acks-commit_group}
use evald.Writer.Owed.{
  asked, owed, numbers, waiting, is_asked, answers, contains-numbers-append, handle_each-Owes,
}

numbers-publish_each :
    (st : Writer) (l : List PendingAppend) → numbers (publish_each st l).1 ≡ waiting l
unfolding publish_each
numbers-publish_each st [] = refl
numbers-publish_each st (p ∷ rest) = ap (◌∷◌ p.ack) (numbers-publish_each (with_batch st p) rest)

numbers-fail_each :
    (kind : ErrorKind) (l : List PendingAppend) → numbers (fail_each kind l) ≡ waiting l
unfolding fail_each
numbers-fail_each kind [] = refl
numbers-fail_each kind (p ∷ rest) = ap (◌∷◌ p.ack) (numbers-fail_each kind rest)

-- The answers to the pending batches.
synced-answers :
    (failure : Option ErrorKind) (st : Writer) (pending : List PendingAppend)
    → numbers (synced failure st pending).1 ≡ waiting pending
synced-answers none st pending = numbers-publish_each st pending
synced-answers (some kind) st pending = numbers-fail_each kind pending

commit_group-answers :
    (seal_threshold : ℕ) (ends : Ends) (st : Writer) (pending : List PendingAppend)
    → numbers (commit_group seal_threshold ends st pending).1 ≡ waiting pending
commit_group-answers seal_threshold ends st [] = unfold commit_group in refl
commit_group-answers seal_threshold ends st (p ∷ rest) =
    ap numbers (acks-commit_group seal_threshold ends st p rest)
    ∙ synced-answers ends.sync st (p ∷ rest)

abbrev asking : Option ℕ → List ℕ
asking none = []
asking (some id) = id ∷ []

answer_seal-answers :
    (ends : Ends) (st : Writer) (o : Option ℕ) → numbers (answer_seal ends st o).1 ≡ asking o
unfolding answer_seal
answer_seal-answers ends st none = refl
answer_seal-answers ends st (some id) = elim (Bool-cases (nat_beq st.wal.active_count 0)) [
  | inl nothing ↦ rw nothing refl
  | inr some_spans ↦ rw some_spans refl
]

-- The answers of a round are those that its loop owes.
given :
    (a b c : List Ack) (pending : List PendingAppend) (o : Option ℕ) (i : ℕ)
    → numbers b ≡ waiting pending
    → numbers c ≡ asking o
    → (length (a ++ b ++ c) ≡ length a + length pending + asked o)
      × (contains (numbers (a ++ b ++ c)) i
          ≡ (contains (numbers a) i || contains (waiting pending) i || is_asked o i))
given a b c pending o i e f = (
  omega (
    arith,
    length-append {0} (a ++ b) c,
    length-append {0} a b,
    length-numbers b,
    length-numbers c,
    length-waiting pending,
    length-asking o,
    ap (λ (l : List ℕ). length l) e,
    ap (λ (l : List ℕ). length l) f,
  ),
  ground (
    arith,
    contains-numbers-append (a ++ b) c i,
    contains-numbers-append a b i,
    ap (λ (l : List ℕ). contains l i) e,
    ap (λ (l : List ℕ). contains l i) f,
    contains-asking o i,
  ),
)
  where
    length-numbers : (l : List Ack) → length (numbers l) ≡ length l
    length-numbers [] = refl
    length-numbers (x ∷ l) = ap suc (length-numbers l)

    length-waiting : (l : List PendingAppend) → length (waiting l) ≡ length l
    length-waiting [] = refl
    length-waiting (x ∷ l) = ap suc (length-waiting l)

    length-asking : (o : Option ℕ) → length (asking o) ≡ asked o
    length-asking none = refl
    length-asking (some id) = refl

    contains-asking : (o : Option ℕ) (i : ℕ) → contains (asking o) i ≡ is_asked o i
    contains-asking none i = refl
    contains-asking (some id) i = ground arith

-- Every command of a group in which nothing stands behind a seal is answered, and no command is
-- answered twice: there are as many answers as commands, and their numbers are those of the
-- commands, whichever of the writes, of the sync and of the rotations fail.
pub run_group-answers :
    (codec : Codec) (seal_threshold max_hot_spans : ℕ) (ends : Ends) (st : Writer) (cmds : List Cmd)
    → SealsLast cmds
    → (length (run_group codec seal_threshold max_hot_spans ends st cmds).1 ≡ length cmds)
      × ((i : ℕ)
          → contains
              (map (λ (a : Ack). a.0) (run_group codec seal_threshold max_hot_spans ends st cmds).1)
              i
            ≡ ltb i (length cmds))
unfolding run_group
run_group-answers codec seal_threshold max_hot_spans ends st cmds last =
    let (count, each) =
      handle_each-Owes codec (is_over_limit max_hot_spans st.hot) ends.writes start 0 cmds last
        refl in
    (omega (arith, count, (gives 0).0), λ i. (gives i).1 ∙ each i ∙ ground arith)
  where
    start : Round
    start = record {
      wal = st.wal;
      rejections = st.rejections;
      acks = [];
      pending = [];
      seal_ack = none;
    }

    round : Round
    round = handle_each codec (is_over_limit max_hot_spans st.hot) ends.writes start 0 cmds

    committed : Writer × List Ack
    committed =
        commit_group seal_threshold ends
          (record {
            wal = round.wal;
            hot = st.hot;
            active_seqno = st.active_seqno;
            rejections = round.rejections;
            ingested = st.ingested;
          })
          round.pending

    gives :
        (i : ℕ)
        → (length (round.acks ++ committed.1 ++ (answer_seal ends committed.0 round.seal_ack).1)
            ≡ owed round)
          × (contains
                (numbers
                  (round.acks ++ committed.1 ++ (answer_seal ends committed.0 round.seal_ack).1))
                i
              ≡ answers round i)
    gives i =
        given round.acks committed.1 (answer_seal ends committed.0 round.seal_ack).1 round.pending
          round.seal_ack i (commit_group-answers seal_threshold ends _ round.pending)
          (answer_seal-answers ends committed.0 round.seal_ack)
