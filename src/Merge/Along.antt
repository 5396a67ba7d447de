-- ===== src/Merge/Along.antt =====
-- A condition on every merge that a pass makes, in the state in which it makes it.
use evald.Prelude.{
  ℕ, ◌≡◌, ◌&&◌, ◌||◌, not, Bool, true, false, List, [], ◌∷◌, Text, bytes, text_eq, contains, keep,
  length, ltb, if◌then◌else◌,
}
use evald.Prelude.Io.{Result, Outcome, ok, err}
use evald.Index.{Redb}
use evald.Merge.{MergePolicy, enabled, MergeScope, Candidate, Grouped, day_is_closed, group}
use evald.Merge.Plan.{candidates, is_quiet, chunks}
use evald.Merge.Inputs.{MergeFaults}
use evald.Merge.Pass.{Cold, Progress, merge_one, merge_chunks, groups_of, min_blocks}
use evald.Merge.Cold.{is_tick, merge_hour, merge_hours, merge_day, start}

module _ (redb : Redb) (faults : MergeFaults) (now : ℕ) (dry_run : Bool)
    (R : Cold redb → (dir prefix : Text) → List Candidate → Type 0) where
  -- A condition on the state that a step leaves, if the pass goes on from it.
  abbrev pub Then : Outcome × Progress redb → (Progress redb → Type 0) → Type 0
  Then (err kind, st) next = Unit
  Then (ok u, st) next = next st

  abbrev pub Planned : Result (List Candidate) → (List Candidate → Type 0) → Type 0
  Planned (err kind) next = Unit
  Planned (ok cands) next = next cands

  abbrev pub AlongOne : Bool → Text → List Candidate → Progress redb → Type 0
  AlongOne in_hours dir chunk st =
      ltb (length chunk) 2 ≡ false
      → R st.cold dir (if in_hours then bytes "merged" else bytes "day") chunk

  abbrev pub AlongChunks : Bool → Text → List (List Candidate) → Progress redb → Type 0
  AlongChunks in_hours dir [] st = Unit
  AlongChunks in_hours dir (chunk ∷ rest) st =
      AlongOne in_hours dir chunk st
      × Then (merge_one redb faults now dry_run in_hours dir chunk st)
          (λ st'. AlongChunks in_hours dir rest st')

  abbrev pub AlongGroups : Text → ℕ → List (List Candidate) → Progress redb → Type 0
  AlongGroups dir most [] st = Unit
  AlongGroups dir most (g ∷ groups) st =
      AlongChunks true dir (chunks g most) st
      × Then (merge_chunks redb faults now dry_run true dir (chunks g most) st)
          (λ st'. AlongGroups dir most groups st')

  module _ (policy : MergePolicy) (scope : MergeScope) (today : Text) where
    abbrev pub AlongHour : Text → List Text → Progress redb → Type 0
    AlongHour dir rels st =
        ltb (length rels) (min_blocks redb policy scope) ≡ false
        → Planned (candidates (faults.failing dir) st.cold.footers st.cold.files rels) (λ cands.
          AlongGroups dir policy.max_spans_per_block (groups_of redb policy scope cands) st)

    abbrev pub AlongHours : Grouped → Progress redb → Type 0
    AlongHours [] st = Unit
    AlongHours ((dir, rels) ∷ rest) st =
        AlongHour dir rels st
        × Then (merge_hour redb faults now policy scope dry_run dir rels st)
            (λ st'. AlongHours rest st')

    abbrev pub AlongDay : Text → List Text → Progress redb → Type 0
    AlongDay dir rels st =
        let left = keep (λ r. not (contains st.consumed r)) rels in
        (not (day_is_closed dir today) || ltb (length left) 2) ≡ false
        → Planned (candidates (faults.failing dir) st.cold.footers st.cold.files left) (λ cands.
          (is_tick scope && not (is_quiet cands now policy.day_quiet)) ≡ false
          → AlongChunks false dir (chunks cands policy.max_spans_per_block) st)

    abbrev pub AlongDays : Grouped → Progress redb → Type 0
    AlongDays [] st = Unit
    AlongDays ((dir, rels) ∷ rest) st =
        AlongDay dir rels st
        × Then (merge_day redb faults now today policy scope dry_run dir rels st)
            (λ st'. AlongDays rest st')

    abbrev pub AlongPass : Cold redb → Type 0
    AlongPass cold =
        (is_tick scope && not (enabled policy)) ≡ false
        → AlongHours (group redb cold.index).0 (start redb dry_run cold)
          × Then
              (merge_hours redb faults now policy scope dry_run (group redb cold.index).0
                (start redb dry_run cold))
              (λ st. policy.day_merge ≡ true → AlongDays (group redb st.cold.index).1 st)
