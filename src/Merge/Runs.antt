-- ===== src/Merge/Runs.antt =====
-- A whole merge pass: what is kept by each chunk's merge is kept by the pass.
use evald.Prelude.{
  ℕ, ◌≡◌, refl, Bool, true, false, ◌&&◌, ◌||◌, not, List, [], ◌∷◌, Text, bytes, text_eq, contains,
  keep, length, ltb, if◌then◌else◌, Bool-cases, inl, inr,
}
use evald.Prelude.Io.{Result, Outcome, ok, err}
use evald.Index.{Redb}
use evald.Merge.{MergePolicy, enabled, MergeScope, Candidate, Grouped, day_is_closed, group}
use evald.Merge.Plan.{candidates, is_quiet, chunks}
use evald.Merge.Inputs.{MergeFaults}
use evald.Merge.Pass.{
  Cold, Progress, and_then, consume, merge_one, merge_chunk, merge_chunks, merge_groups, groups_of,
  min_blocks,
}
use evald.Merge.Cold.{
  is_tick, planned, merge_hour, merge_hours, merge_day, merge_days, merge_cold, start,
}
use evald.Merge.Along.{
  Then, Planned, AlongOne, AlongChunks, AlongGroups, AlongHours, AlongDays, AlongPass,
}

module _ (redb : Redb) (faults : MergeFaults) (now : ℕ) (dry_run : Bool) where
  -- A property of the cold tier that no merge of a chunk breaks which meets a condition.
  module _ (R : Cold redb → (dir prefix : Text) → List Candidate → Type 0) (P : Cold redb → Type 0)
      (keeps : (dir prefix : Text) (chunk : List Candidate) (st : Progress redb)
        → R st.cold dir prefix chunk
        → P st.cold
        → P (merge_chunk redb faults now dry_run dir prefix chunk st).1.cold) where
    and_then-keeps :
        (r : Outcome × Progress redb) (next : Progress redb → Outcome × Progress redb)
        (Q : Progress redb → Type 0)
        → ((st : Progress redb) → Q st → P st.cold → P (next st).1.cold)
        → Then redb faults now dry_run R r Q
        → P r.1.cold
        → P (and_then redb r next).1.cold
    and_then-keeps (err kind, st) next Q later along h = h
    and_then-keeps (ok u, st) next Q later along h = later st along h

    consume-keeps :
        (b : Bool) (chunk : List Candidate) (st : Progress redb)
        → P st.cold
        → P (consume redb b chunk st).cold
    consume-keeps true chunk st h = h
    consume-keeps false chunk st h = h

    condition :
        (b : Bool) (chunk : List Candidate) (st : Progress redb) (dir prefix : Text)
        → R st.cold dir prefix chunk
        → R (consume redb b chunk st).cold dir prefix chunk
    condition true chunk st dir prefix h = h
    condition false chunk st dir prefix h = h

    merge_one-keeps :
        (in_hours : Bool) (dir : Text) (chunk : List Candidate) (st : Progress redb)
        → AlongOne redb faults now dry_run R in_hours dir chunk st
        → P st.cold
        → P (merge_one redb faults now dry_run in_hours dir chunk st).1.cold
    merge_one-keeps in_hours dir chunk st along h = elim (Bool-cases (ltb (length chunk) 2)) [
      | inl e ↦ rw e h
      | inr e ↦ rw e (
          keeps dir (if in_hours then bytes "merged" else bytes "day") chunk
            (consume redb (in_hours && dry_run) chunk st)
            (condition (in_hours && dry_run) chunk st dir _ (along e))
            (consume-keeps (in_hours && dry_run) chunk st h))
    ]

    merge_chunks-keeps :
        (in_hours : Bool) (dir : Text) (l : List (List Candidate)) (st : Progress redb)
        → AlongChunks redb faults now dry_run R in_hours dir l st
        → P st.cold
        → P (merge_chunks redb faults now dry_run in_hours dir l st).1.cold
    unfolding merge_chunks
    merge_chunks-keeps in_hours dir [] st along h = h
    merge_chunks-keeps in_hours dir (chunk ∷ rest) st along h =
        and_then-keeps (merge_one redb faults now dry_run in_hours dir chunk st) _ _
          (λ st' a h'. merge_chunks-keeps in_hours dir rest st' a h') along.1
          (merge_one-keeps in_hours dir chunk st along.0 h)

    merge_groups-keeps :
        (dir : Text) (most : ℕ) (groups : List (List Candidate)) (st : Progress redb)
        → AlongGroups redb faults now dry_run R dir most groups st
        → P st.cold
        → P (merge_groups redb faults now dry_run dir most groups st).1.cold
    unfolding merge_groups
    merge_groups-keeps dir most [] st along h = h
    merge_groups-keeps dir most (g ∷ groups) st along h =
        and_then-keeps (merge_chunks redb faults now dry_run true dir (chunks g most) st) _ _
          (λ st' a h'. merge_groups-keeps dir most groups st' a h') along.1
          (merge_chunks-keeps true dir (chunks g most) st along.0 h)

    planned-keeps :
        (r : Result (List Candidate)) (next : List Candidate → Outcome × Progress redb)
        (Q : List Candidate → Type 0) (st : Progress redb)
        → Planned redb faults now dry_run R r Q
        → P st.cold
        → ((cands : List Candidate) → Q cands → P (next cands).1.cold)
        → P (planned redb st r next).1.cold
    planned-keeps (err kind) next Q st along h later = h
    planned-keeps (ok cands) next Q st along h later = later cands along

    module _ (policy : MergePolicy) (scope : MergeScope) (today : Text) where
      merge_hours-keeps :
          (hours : Grouped) (st : Progress redb)
          → AlongHours redb faults now dry_run R policy scope today hours st
          → P st.cold
          → P (merge_hours redb faults now policy scope dry_run hours st).1.cold
      unfolding merge_hours
      merge_hours-keeps [] st along h = h
      merge_hours-keeps ((dir, rels) ∷ rest) st along h =
          and_then-keeps (merge_hour redb faults now policy scope dry_run dir rels st) _ _
            (λ st' a h'. merge_hours-keeps rest st' a h') along.1
            (elim (Bool-cases (ltb (length rels) (min_blocks redb policy scope))) [
              | inl e ↦ rw e h
              | inr e ↦ rw e (
                  planned-keeps (candidates (faults.failing dir) st.cold.footers st.cold.files rels)
                    _ _ st (along.0 e) h
                    (λ cands a.
                      merge_groups-keeps dir policy.max_spans_per_block
                        (groups_of redb policy scope cands) st a h))
            ])

      day_step :
          (busy : Bool) (dir : Text) (cands : List Candidate) (st : Progress redb)
          → (busy ≡ false
              → AlongChunks redb faults now dry_run R false dir
                  (chunks cands policy.max_spans_per_block)
                  st)
          → P st.cold
          → P
              ((if busy
                then (let r : Outcome × Progress redb = (ok tt, st) in r)
                else merge_chunks redb faults now dry_run false dir
                    (chunks cands policy.max_spans_per_block)
                    st)).1.cold
      day_step true dir cands st along h = h
      day_step false dir cands st along h =
          merge_chunks-keeps false dir (chunks cands policy.max_spans_per_block) st (along refl) h

      merge_days-keeps :
          (days : Grouped) (st : Progress redb)
          → AlongDays redb faults now dry_run R policy scope today days st
          → P st.cold
          → P (merge_days redb faults now today policy scope dry_run days st).1.cold
      unfolding merge_days
      merge_days-keeps [] st along h = h
      merge_days-keeps ((dir, rels) ∷ rest) st along h =
          let left = keep (λ r. not (contains st.consumed r)) rels in
          and_then-keeps (merge_day redb faults now today policy scope dry_run dir rels st) _ _
            (λ st' a h'. merge_days-keeps rest st' a h') along.1
            (elim (Bool-cases (not (day_is_closed dir today) || ltb (length left) 2)) [
              | inl e ↦ rw e h
              | inr e ↦ rw e (
                  planned-keeps (candidates (faults.failing dir) st.cold.footers st.cold.files left)
                    _ _ st (along.0 e) h
                    (λ cands a.
                      day_step (is_tick scope && not (is_quiet cands now policy.day_quiet)) dir
                        cands st a h))
            ])

      pub merge_cold-keeps :
          (cold : Cold redb)
          → AlongPass redb faults now dry_run R policy scope today cold
          → P cold
          → P (merge_cold redb faults now today policy scope dry_run cold).1.cold
      unfolding merge_cold
      merge_cold-keeps cold along h = elim (Bool-cases (is_tick scope && not (enabled policy))) [
        | inl e ↦ rw e h
        | inr e ↦ rw e (
            and_then-keeps
              (merge_hours redb faults now policy scope dry_run (group redb cold.index).0
                (start redb dry_run cold))
              _ _
              (λ st a h'. elim (Bool-cases policy.day_merge) [
                | inl d ↦ rw d (merge_days-keeps (group redb st.cold.index).1 st (a d) h')
                | inr d ↦ rw d h'
              ])
              (along e).1
              (merge_hours-keeps (group redb cold.index).0 (start redb dry_run cold) (along e).0 h))
      ]
