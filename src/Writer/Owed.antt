-- ===== src/Writer/Owed.antt =====
-- How many answers the loop over the commands of a round owes, and to which of them.
use evald.Prelude.{
  ℕ, suc, ◌+◌, ◌≡◌, refl, ap, ◌∙◌, Bool, true, false, ◌&&◌, ◌||◌, Option, none, some, List, [], ◌∷◌,
  ◌++◌, map, length, nat_eq, nat_beq, ltb, leb, arith, length-append, contains,
}
use evald.Prelude.Io.{Result, ok, err}
use evald.Model.{NormalizedSpan}
use evald.Wal.{Codec, Wal, Write, append_nosync}
use evald.Writer.{
  io, backpressure, Cmd, append, seal_now, is_seal, Ack, PendingAppend, Round, appended, handle,
  handle_each,
}
use evald.Writer.Collect.{SealsLast}

abbrev pub asked : Option ℕ → ℕ
asked none = 0
asked (some id) = 1

-- The answers that a round has given or will give.
abbrev pub owed : Round → ℕ
owed round = length round.acks + length round.pending + asked round.seal_ack

owed-appended :
    (round : Round) (id : ℕ) (spans : List NormalizedSpan) (r : Result ℕ × Wal)
    → owed (appended round id spans r) ≡ suc (owed round)
owed-appended round id spans (ok seqno, wal) = omega (
  arith,
  length-append {0} round.pending (record { seqno = seqno; spans = spans; ack = id } ∷ []),
)
owed-appended round id spans (err kind, wal) = omega (arith, length-append {0} round.acks _)

owed-handle :
    (codec : Codec) (over_limit : Bool) (writes : ℕ → Write) (round : Round) (id : ℕ) (cmd : Cmd)
    → round.seal_ack ≡ none
    → owed (handle codec over_limit writes round id cmd) ≡ suc (owed round)
unfolding handle
owed-handle codec true writes round id (append spans) h =
    omega (arith, length-append {0} round.acks _)
owed-handle codec false writes round id (append spans) h =
    owed-appended round id spans (append_nosync codec round.wal spans (writes id))
owed-handle codec over_limit writes round id seal_now h = omega (arith, ap asked h)

-- Whether a command is or will be answered.
abbrev pub numbers : List Ack → List ℕ
numbers = map (λ (a : Ack). a.0)

abbrev pub waiting : List PendingAppend → List ℕ
waiting = map (λ (p : PendingAppend). p.ack)

abbrev pub is_asked : Option ℕ → ℕ → Bool
is_asked none i = false
is_asked (some id) i = nat_beq id i

abbrev pub answers : Round → ℕ → Bool
answers round i =
    contains (numbers round.acks) i
    || contains (waiting round.pending) i
    || is_asked round.seal_ack i

pub contains-numbers-append :
    (a b : List Ack) (i : ℕ)
    → contains (numbers (a ++ b)) i ≡ (contains (numbers a) i || contains (numbers b) i)
contains-numbers-append [] b i = refl
contains-numbers-append (x ∷ a) b i = ground (arith, contains-numbers-append a b i)

contains-waiting-append :
    (a b : List PendingAppend) (i : ℕ)
    → contains (waiting (a ++ b)) i ≡ (contains (waiting a) i || contains (waiting b) i)
contains-waiting-append [] b i = refl
contains-waiting-append (x ∷ a) b i = ground (arith, contains-waiting-append a b i)

answers-appended :
    (round : Round) (id i : ℕ) (spans : List NormalizedSpan) (r : Result ℕ × Wal)
    → answers (appended round id spans r) i ≡ (answers round i || nat_beq id i)
answers-appended round id i spans (ok seqno, wal) = ground (
  arith,
  contains-waiting-append round.pending (record { seqno = seqno; spans = spans; ack = id } ∷ []) i,
)
answers-appended round id i spans (err kind, wal) =
    ground (arith, contains-numbers-append round.acks ((id, some (io kind)) ∷ []) i)

answers-handle :
    (codec : Codec) (over_limit : Bool) (writes : ℕ → Write) (round : Round) (id i : ℕ) (cmd : Cmd)
    → round.seal_ack ≡ none
    → answers (handle codec over_limit writes round id cmd) i ≡ (answers round i || nat_beq id i)
unfolding handle
answers-handle codec true writes round id i (append spans) h =
    ground (arith, contains-numbers-append round.acks ((id, some backpressure) ∷ []) i)
answers-handle codec false writes round id i (append spans) h =
    answers-appended round id i spans (append_nosync codec round.wal spans (writes id))
answers-handle codec over_limit writes round id i seal_now h = ground arith

seal_ack-appended :
    (round : Round) (id : ℕ) (spans : List NormalizedSpan) (r : Result ℕ × Wal)
    → (appended round id spans r).seal_ack ≡ round.seal_ack
seal_ack-appended round id spans (ok seqno, wal) = refl
seal_ack-appended round id spans (err kind, wal) = refl

seal_ack-handle :
    (codec : Codec) (over_limit : Bool) (writes : ℕ → Write) (round : Round) (id : ℕ) (cmd : Cmd)
    → is_seal cmd ≡ false
    → (handle codec over_limit writes round id cmd).seal_ack ≡ round.seal_ack
unfolding handle
seal_ack-handle codec true writes round id (append spans) h = refl
seal_ack-handle codec false writes round id (append spans) h =
    seal_ack-appended round id spans (append_nosync codec round.wal spans (writes id))
seal_ack-handle codec over_limit writes round id seal_now h = absurd (ground arith)

-- The loop over the commands owes one answer to each.
abbrev pub Owes : Round → Round → ℕ → ℕ → Type 0
Owes before after id n =
    (owed after ≡ n + owed before)
    × ((i : ℕ) → answers after i ≡ (answers before i || leb id i && ltb i (id + n)))

pub handle_each-Owes :
    (codec : Codec) (over_limit : Bool) (writes : ℕ → Write) (round : Round) (id : ℕ)
    (cmds : List Cmd)
    → SealsLast cmds
    → round.seal_ack ≡ none
    → Owes round (handle_each codec over_limit writes round id cmds) id (length cmds)
unfolding handle_each
handle_each-Owes codec over_limit writes round id [] last h = (omega arith, λ i. ground arith)
handle_each-Owes codec over_limit writes round id (cmd ∷ []) last h = (
  omega (arith, owed-handle codec over_limit writes round id cmd h),
  λ i. ground (arith, answers-handle codec over_limit writes round id i cmd h),
)
handle_each-Owes codec over_limit writes round id (cmd ∷ next ∷ rest) last h =
    let after = handle codec over_limit writes round id cmd in
    let (count, each) =
      handle_each-Owes codec over_limit writes after (suc id) (next ∷ rest) last.1
        (seal_ack-handle codec over_limit writes round id cmd last.0 ∙ h) in
    (
      omega (arith, count, owed-handle codec over_limit writes round id cmd h),
      λ i. each i ∙ ground (arith, answers-handle codec over_limit writes round id i cmd h),
    )
