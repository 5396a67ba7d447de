-- ===== src/Merge/Always.antt =====
-- A condition that always holds, holds along every pass.
use evald.Prelude.{
  ℕ, Bool, true, false, not, List, [], ◌∷◌, Text, bytes, text_eq, contains, keep, if◌then◌else◌,
}
use evald.Prelude.Io.{Result, Outcome, ok, err}
use evald.Index.{Redb}
use evald.Merge.{MergePolicy, MergeScope, Candidate, Grouped, group}
use evald.Merge.Plan.{candidates, chunks}
use evald.Merge.Inputs.{MergeFaults}
use evald.Merge.Pass.{Cold, Progress, merge_one, merge_chunks, groups_of}
use evald.Merge.Cold.{merge_hour, merge_hours, merge_day, start}
use evald.Merge.Along.{Then, Planned, AlongChunks, AlongGroups, AlongHours, AlongDays, AlongPass}

module _ (redb : Redb) (faults : MergeFaults) (now : ℕ) (dry_run : Bool)
    (R : Cold redb → (dir prefix : Text) → List Candidate → Type 0)
    (always : (cold : Cold redb) (dir : Text) (in_hours : Bool) (chunk : List Candidate)
      → R cold dir (if in_hours then bytes "merged" else bytes "day") chunk) where
  always-Then :
      (r : Outcome × Progress redb) (next : Progress redb → Type 0)
      → ((st : Progress redb) → next st)
      → Then redb faults now dry_run R r next
  always-Then (err kind, st) next h = tt
  always-Then (ok u, st) next h = h st

  always-Planned :
      (r : Result (List Candidate)) (next : List Candidate → Type 0)
      → ((cands : List Candidate) → next cands)
      → Planned redb faults now dry_run R r next
  always-Planned (err kind) next h = tt
  always-Planned (ok cands) next h = h cands

  always-AlongChunks :
      (in_hours : Bool) (dir : Text) (l : List (List Candidate)) (st : Progress redb)
      → AlongChunks redb faults now dry_run R in_hours dir l st
  always-AlongChunks in_hours dir [] st = tt
  always-AlongChunks in_hours dir (chunk ∷ rest) st = (
    λ e. always st.cold dir in_hours chunk,
    always-Then (merge_one redb faults now dry_run in_hours dir chunk st) _
        (λ st'. always-AlongChunks in_hours dir rest st'),
  )

  always-AlongGroups :
      (dir : Text) (most : ℕ) (groups : List (List Candidate)) (st : Progress redb)
      → AlongGroups redb faults now dry_run R dir most groups st
  always-AlongGroups dir most [] st = tt
  always-AlongGroups dir most (g ∷ groups) st = (
    always-AlongChunks true dir (chunks g most) st,
    always-Then (merge_chunks redb faults now dry_run true dir (chunks g most) st) _
        (λ st'. always-AlongGroups dir most groups st'),
  )

  module _ (policy : MergePolicy) (scope : MergeScope) (today : Text) where
    always-AlongHours :
        (hours : Grouped) (st : Progress redb)
        → AlongHours redb faults now dry_run R policy scope today hours st
    always-AlongHours [] st = tt
    always-AlongHours ((dir, rels) ∷ rest) st = (
      λ e.
          always-Planned (candidates (faults.failing dir) st.cold.footers st.cold.files rels) _
            (λ cands.
              always-AlongGroups dir policy.max_spans_per_block (groups_of redb policy scope cands)
                st),
      always-Then (merge_hour redb faults now policy scope dry_run dir rels st) _
          (λ st'. always-AlongHours rest st'),
    )

    always-AlongDays :
        (days : Grouped) (st : Progress redb)
        → AlongDays redb faults now dry_run R policy scope today days st
    always-AlongDays [] st = tt
    always-AlongDays ((dir, rels) ∷ rest) st = (
      λ e.
          always-Planned
            (candidates (faults.failing dir) st.cold.footers st.cold.files
              (keep (λ r. not (contains st.consumed r)) rels))
            _
            (λ cands e'. always-AlongChunks false dir (chunks cands policy.max_spans_per_block) st),
      always-Then (merge_day redb faults now today policy scope dry_run dir rels st) _
          (λ st'. always-AlongDays rest st'),
    )

    pub always-AlongPass :
        (cold : Cold redb) → AlongPass redb faults now dry_run R policy scope today cold
    always-AlongPass cold e = (
      always-AlongHours (group redb cold.index).0 (start redb dry_run cold),
      always-Then
          (merge_hours redb faults now policy scope dry_run (group redb cold.index).0
            (start redb dry_run cold))
          _ (λ st d. always-AlongDays (group redb st.cold.index).1 st),
    )
