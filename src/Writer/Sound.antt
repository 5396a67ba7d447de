-- ===== src/Writer/Sound.antt =====
-- What the loop over the commands of a round remembers of them.
use mathlib.Core.List.{append_assoc}
use evald.Prelude.{
  ℕ, zero, suc, ◌≡◌, refl, ap, ◌∙◌, sym, Bool, true, false, ◌&&◌, ◌||◌, any, Option, none, some,
  List, [], ◌∷◌, ◌++◌, length, All, nat_eq, nat_beq, arith, All-append, length-append,
}
use evald.Prelude.Io.{Result, ok, err}
use evald.Prelude.Maps.{nat_less}
use evald.Model.{NormalizedSpan, is_none}
use evald.Key.{key_eq}
use evald.Wal.{Codec, Wal, Write, append_nosync}
use evald.Writer.{Cmd, append, seal_now, Ack, PendingAppend, Round, appended, handle, handle_each}

-- The command with a number.
abbrev pub nth : List Cmd → ℕ → Option Cmd
nth [] i = none
nth (cmd ∷ rest) zero = some cmd
nth (cmd ∷ rest) (suc i) = nth rest i

nth-append :
    (before rest : List Cmd) (cmd : Cmd) → nth (before ++ cmd ∷ rest) (length before) ≡ some cmd
nth-append [] rest cmd = refl
nth-append (b ∷ before) rest cmd = nth-append before rest cmd

-- Whether a command is answered by `Ok(())`.
abbrev pub is_acked : List Ack → ℕ → Bool
is_acked acks i = any (λ (a : Ack). nat_beq a.0 i && is_none a.1) acks

pub is_acked-append :
    (a b : List Ack) (i : ℕ) → is_acked (a ++ b) i ≡ (is_acked a i || is_acked b i)
is_acked-append [] b i = refl
is_acked-append (x ∷ a) b i = ground (arith, is_acked-append a b i)

abbrev pub IsBatch : List Cmd → PendingAppend → Type 0
IsBatch whole p = nth whole p.ack ≡ some (append p.spans)

abbrev pub IsSeal : List Cmd → Option ℕ → Type 0
IsSeal whole none = Unit
IsSeal whole (some id) = nth whole id ≡ some seal_now

-- What the first loop keeps: it acknowledges nothing, and remembers each batch and seal under the
-- number of its command.
pub record Sound (whole : List Cmd) (round : Round) : Type 0 where
  pub unanswered : (i : ℕ) → is_acked round.acks i ≡ false
  pub batches : All (IsBatch whole) round.pending
  pub seals : IsSeal whole round.seal_ack

appended-Sound :
    (whole : List Cmd) (round : Round) (id : ℕ) (spans : List NormalizedSpan) (r : Result ℕ × Wal)
    → Sound whole round
    → nth whole id ≡ some (append spans)
    → Sound whole (appended round id spans r)
appended-Sound whole round id spans (ok seqno, wal) h e = record {
  unanswered = h.unanswered;
  batches = All-append (IsBatch whole) round.pending _ h.batches (e, tt);
  seals = h.seals;
}
appended-Sound whole round id spans (err kind, wal) h e = record {
  unanswered = λ i. is_acked-append round.acks _ i ∙ ground (arith, h.unanswered i);
  batches = h.batches;
  seals = h.seals;
}

handle-Sound :
    (codec : Codec) (over_limit : Bool) (writes : ℕ → Write) (whole : List Cmd) (round : Round)
    (id : ℕ) (cmd : Cmd)
    → Sound whole round
    → nth whole id ≡ some cmd
    → Sound whole (handle codec over_limit writes round id cmd)
unfolding handle
handle-Sound codec true writes whole round id (append spans) h e = record {
  unanswered = λ i. is_acked-append round.acks _ i ∙ ground (arith, h.unanswered i);
  batches = h.batches;
  seals = h.seals;
}
handle-Sound codec false writes whole round id (append spans) h e =
    appended-Sound whole round id spans (append_nosync codec round.wal spans (writes id)) h e
handle-Sound codec over_limit writes whole round id seal_now h e = record {
  unanswered = h.unanswered;
  batches = h.batches;
  seals = e;
}

pub handle_each-Sound :
    (codec : Codec) (over_limit : Bool) (writes : ℕ → Write) (whole before : List Cmd)
    (round : Round) (id : ℕ) (cmds : List Cmd)
    → whole ≡ before ++ cmds
    → id ≡ length before
    → Sound whole round
    → Sound whole (handle_each codec over_limit writes round id cmds)
unfolding handle_each
handle_each-Sound codec over_limit writes whole before round id [] e f h = h
handle_each-Sound codec over_limit writes whole before round id (cmd ∷ cmds) e f h =
    handle_each-Sound codec over_limit writes whole (before ++ cmd ∷ [])
      (handle codec over_limit writes round id cmd) (suc id) cmds
      (e ∙ sym (append_assoc before (cmd ∷ []) cmds))
      (omega (arith, f, length-append before (cmd ∷ [])))
      (handle-Sound codec over_limit writes whole round id cmd h (
        ap (λ (w : List Cmd). nth w id) e
        ∙ ap (nth (before ++ cmd ∷ cmds)) f
        ∙ nth-append before cmds cmd))
