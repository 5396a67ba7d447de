-- ===== src/Compactor/Ticks.antt =====
-- No tick of the compactor loses an identity.
use mathlib.Core.Path.{subst}
use evald.Prelude.{ℕ, sym, ◌≡◌, ◌⊎◌, refl, true, false, List, [], ◌∷◌, contains, inl, inr}
use evald.Prelude.Io.{Result, Outcome, ok, err}
use evald.Key.{SpanKey, key_eq}
use evald.Hot.{HotTier, all_spans}
use evald.Index.{Redb, Index}
use evald.Query.Distinct.{identities}
use evald.Flush.{Chrono, Files, Shared, flush_pending}
use evald.Flush.Cold.{Stored}
use evald.Flush.Ready.{IsReady, IsNamed}
use evald.Flush.Passes.{flush_pending-Stored}
use evald.Merge.{MergePolicy, tick, MergeReport}
use evald.Merge.Pass.{Cold, Progress}
use evald.Merge.Cold.{merge_cold, sweep_unindexed}
use evald.Merge.Swap.{InCold}
use evald.Merge.Along.{AlongPass}
use evald.Merge.Kept.{HasFreeOutput, merge_cold-kept}
use evald.Compactor.{
  Tick, Compactor, cold_of, with_cold, flushed, swept, merged, compact, compact_each,
}
use evald.Compactor.Keeps.{merge_cold-IsNamed, sweep-InCold}

module _ (redb : Redb) (chrono : Chrono) where
  abbrev pub Holds : Compactor redb chrono → SpanKey → Type 0
  Holds st k = Stored redb chrono st.shared k

  abbrev pub Ready : Compactor redb chrono → Type 0
  Ready st = IsReady redb chrono st.shared.index st.shared.hot

  -- An identity in the hot tier or in the blocks of an index.
  abbrev InTiers : HotTier → Index redb → Files → SpanKey → Type 0
  InTiers hot index files k =
      (contains (identities (all_spans hot)) k ≡ true) ⊎ InCold redb index files k

  to_tiers :
      (st : Compactor redb chrono) (k : SpanKey)
      → Holds st k
      → InTiers st.shared.hot st.shared.index st.shared.files k
  to_tiers st k (inl h) = inl h
  to_tiers st k (inr (p, held, found)) = inr (p, (held, found))

  of_tiers :
      (st : Compactor redb chrono) (k : SpanKey)
      → InTiers st.shared.hot st.shared.index st.shared.files k
      → Holds st k
  of_tiers st k (inl h) = inl h
  of_tiers st k (inr (p, (held, found))) = inr (p, held, found)

  shared-flushed :
      (st : Compactor redb chrono) (r : Outcome × Shared redb chrono)
      → (flushed redb chrono st r).shared ≡ r.1
  shared-flushed st (ok u, shared) = refl
  shared-flushed st (err kind, shared) = refl

  abbrev after_flush : Tick → Compactor redb chrono → Compactor redb chrono
  after_flush t st = flushed redb chrono st (flush_pending redb chrono t.flushes st.shared)

  -- The outputs of the tick's merges have free names.
  abbrev pub HasFreeOutputs : Tick → MergePolicy → Compactor redb chrono → Type 0
  HasFreeOutputs t policy st =
      AlongPass redb t.merges t.merged_at false (HasFreeOutput redb) policy tick t.today
        (cold_of redb chrono (after_flush t st))

  swept-kept :
      (t : Tick) (policy : MergePolicy) (st : Compactor redb chrono) (report : MergeReport)
      (r : Result ℕ × Files) (k : SpanKey)
      → InTiers st.shared.hot st.shared.index r.1 k
      → Holds (swept redb chrono st report r) k
  swept-kept t policy st report (err kind, files) k h =
      of_tiers (swept redb chrono st report (err kind, files)) k h
  swept-kept t policy st report (ok removed, files) k h =
      of_tiers (swept redb chrono st report (ok removed, files)) k h

  swept-Ready :
      (st : Compactor redb chrono) (report : MergeReport) (r : Result ℕ × Files)
      → Ready st
      → Ready (swept redb chrono st report r)
  swept-Ready st report (err kind, files) h = h
  swept-Ready st report (ok removed, files) h = h

  sweep_tiers :
      (t : Tick) (policy : MergePolicy) (hot : HotTier) (cold : Cold redb) (k : SpanKey)
      → IsNamed redb chrono cold.index
      → InTiers hot cold.index cold.files k
      → InTiers hot cold.index
          (sweep_unindexed redb t.sweeps t.swept_at policy.unlink_grace t.walk cold).1
          k
  sweep_tiers t policy hot cold k named (inl h) = inl h
  sweep_tiers t policy hot cold k named (inr h) =
      inr (sweep-InCold redb chrono t policy cold k named h)

  merged-kept :
      (t : Tick) (policy : MergePolicy) (st : Compactor redb chrono) (r : Outcome × Progress redb)
      (k : SpanKey)
      → IsNamed redb chrono r.1.cold.index
      → InTiers st.shared.hot r.1.cold.index r.1.cold.files k
      → Holds (merged redb chrono t policy st r) k
  merged-kept t policy st (err kind, progress) k named h =
      of_tiers (merged redb chrono t policy st (err kind, progress)) k h
  merged-kept t policy st (ok u, progress) k named h =
      swept-kept t policy (with_cold redb chrono st progress.cold) progress.report
        (sweep_unindexed redb t.sweeps t.swept_at policy.unlink_grace t.walk progress.cold) k
        (sweep_tiers t policy st.shared.hot progress.cold k named h)

  merged-Ready :
      (t : Tick) (policy : MergePolicy) (st : Compactor redb chrono) (r : Outcome × Progress redb)
      → IsReady redb chrono r.1.cold.index st.shared.hot
      → Ready (merged redb chrono t policy st r)
  merged-Ready t policy st (err kind, progress) h = h
  merged-Ready t policy st (ok u, progress) h =
      swept-Ready (with_cold redb chrono st progress.cold) progress.report _ h

  compact-kept :
      (t : Tick) (policy : MergePolicy) (st : Compactor redb chrono) (k : SpanKey)
      → Ready st
      → HasFreeOutputs t policy st
      → (Holds st k → Holds (compact redb chrono t policy st) k)
        × Ready (compact redb chrono t policy st)
  unfolding compact
  compact-kept t policy st k ready free =
      let after = after_flush t st in
      let cold = cold_of redb chrono after in
      let pass = merge_cold redb t.merges t.merged_at t.today policy tick false cold in
      let ((keeps, kept), still) = flush_pending-Stored redb chrono t.flushes st.shared k ready in
      let same = shared-flushed st (flush_pending redb chrono t.flushes st.shared) in
      let still' : Ready after =
        subst (λ (s : Shared redb chrono). IsReady redb chrono s.index s.hot) (sym same) still in
      let named = merge_cold-IsNamed redb chrono t policy cold still'.is_named in
      (
        λ h. merged-kept t policy after pass k named (
            across t policy after k free (
              to_tiers after k
                (subst (λ (s : Shared redb chrono). Stored redb chrono s k) (sym same) (keeps h)))),
        merged-Ready t policy after pass (record {
          distinct = still'.distinct;
          ascending = still'.ascending;
          is_named = named;
          is_numbered = still'.is_numbered;
        }),
      )
    where
      across :
          (t : Tick) (policy : MergePolicy) (after : Compactor redb chrono) (k : SpanKey)
          → AlongPass redb t.merges t.merged_at false
              (HasFreeOutput redb)
              policy
              tick
              t.today
              (cold_of redb chrono after)
          → InTiers after.shared.hot after.shared.index after.shared.files k
          → (let cold =
                (merge_cold redb t.merges t.merged_at t.today policy tick false
                  (cold_of redb chrono after)).1.cold in
              InTiers after.shared.hot cold.index cold.files k)
      across t policy after k free (inl h) = inl h
      across t policy after k free (inr h) = inr (
          merge_cold-kept redb t.merges t.merged_at t.today policy tick false
            (cold_of redb chrono after) k free h)

  -- The condition on each tick, in the state in which it comes.
  abbrev pub HaveFreeOutputs : List Tick → MergePolicy → Compactor redb chrono → Type 0
  HaveFreeOutputs [] policy st = Unit
  HaveFreeOutputs (t ∷ rest) policy st =
      HasFreeOutputs t policy st × HaveFreeOutputs rest policy (compact redb chrono t policy st)

  -- The compactor loses no identity that either tier holds, over any number of ticks of which each
  -- flushes, merges and sweeps, whatever step of them fails, and the state stays ready for the next. It
  -- starts from such a state: no indexed block is named for a segment above the watermark, the hot tier
  -- has its segments in ascending order, and numbers are of 64 bits. No merge writes to the name of a block that the
  -- index holds.
  pub compact_each-kept :
      (ticks : List Tick) (policy : MergePolicy) (st : Compactor redb chrono) (k : SpanKey)
      → Ready st
      → HaveFreeOutputs ticks policy st
      → (Holds st k → Holds (compact_each redb chrono ticks policy st) k)
        × Ready (compact_each redb chrono ticks policy st)
  unfolding compact_each
  compact_each-kept [] policy st k ready free = (λ h. h, ready)
  compact_each-kept (t ∷ rest) policy st k ready free =
      let (first, ready') = compact-kept t policy st k ready free.0 in
      let (later, ready'') =
        compact_each-kept rest policy (compact redb chrono t policy st) k ready' free.1 in
      (λ h. later (first h), ready'')
