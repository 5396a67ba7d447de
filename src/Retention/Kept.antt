-- ===== src/Retention/Kept.antt =====
-- What retention keeps, and what it reports.
use evald.Prelude.{
  ℕ, ◌+◌, ◌≡◌, refl, ap, ◌∙◌, sym, Bool, true, false, ◌&&◌, ◌||◌, not, Option, none, some, List, [],
  ◌∷◌, Text, text_eq, text_beq, contains, if◌then◌else◌, arith, Bool-cases, inl, inr,
}
use evald.Prelude.Io.{ErrorKind, Result, Outcome, ok, err, Result-cases}
use evald.Prelude.Maps.{get, get-delete}
use evald.Index.{Redb, Index, all_block_paths, block_count, drop_blocks}
use evald.Index.Consistent.{contains-drop_blocks}
use evald.Query.{is_not_found}
use evald.Flush.{Files}
use evald.Retention.{
  ReclaimReport, removal, remove_files, is_empty, report_of, with_report, selection, remove_all,
  reclaim_before_in,
}
use evald.Retention.Selected.{is_below, contains-selection, selection-block_count}

removal-other :
    (end : Option ErrorKind) (rel p : Text) (files : Files)
    → text_beq rel p ≡ false
    → get p (removal end rel files).1 ≡ get p files
removal-other none rel p files h = get-delete rel p files ∙ rw h refl
removal-other (some kind) rel p files h = elim (Bool-cases (is_not_found kind)) [
  | inl e ↦ rw e refl
  | inr e ↦ rw e refl
]

remove_files-other :
    (ends : Text → Option ErrorKind) (paths : List Text) (p : Text) (files : Files)
    → contains paths p ≡ false
    → get p (remove_files ends paths files).1 ≡ get p files
unfolding remove_files
remove_files-other ends [] p files h = refl
remove_files-other ends (rel ∷ rest) p files h =
    let done = removal (ends rel) rel files in
    let kept = removal-other (ends rel) rel p files (ground arith) in
    elim (Result-cases done.0) [
      | inr (kind, e) ↦ rw (e, remove_files) kept
      | inl (u, e) ↦
          rw (e, remove_files) (remove_files-other ends rest p done.1 (ground arith) ∙ kept)
    ]

module _ (redb : Redb) where
  open redb use {get as get_value}

  abbrev Untouched : Index redb → Files → Text → Result ReclaimReport × Index redb × Files → Type 0
  Untouched index files p r =
      (contains (all_block_paths redb r.1) p ≡ contains (all_block_paths redb index) p)
      × (get p r.2 ≡ get p files)

  drop_blocks-Untouched :
      (ends : Text → Option ErrorKind) (report : ReclaimReport) (index : Index redb) (files : Files)
      (paths : List Text) (end : Option ErrorKind) (p : Text)
      → contains paths p ≡ false
      → Untouched index files p
          (remove_all redb ends report paths files (drop_blocks redb index paths end))
  drop_blocks-Untouched ends report index files [] end p h =
      unfold drop_blocks remove_files in (refl, refl)
  drop_blocks-Untouched ends report index files (q ∷ paths) (some kind) p h =
      unfold drop_blocks in (refl, refl)
  drop_blocks-Untouched ends report index files (q ∷ paths) none p h =
      unfold drop_blocks in
      (
        (contains-drop_blocks redb index (q ∷ paths) [] p).0 ∙ ground (arith, h),
        remove_files-other ends (q ∷ paths) p files h,
      )

  -- Whatever fails on the way, and on a dry run too: a block that is not below the cutoff stays in
  -- the index as it was, and its file is not touched.
  pub reclaim_before_in-kept :
      (size : Text → Option ℕ) (drop_end : Option ErrorKind) (ends : Text → Option ErrorKind)
      (index : Index redb) (files : Files) (cutoff : ℕ) (dry_run : Bool) (p : Text)
      → is_below cutoff (get_value p index.blocks) ≡ false
      → (contains
            (all_block_paths redb
              (reclaim_before_in redb size drop_end ends index files cutoff dry_run).1)
            p
          ≡ contains (all_block_paths redb index) p)
        × (get p (reclaim_before_in redb size drop_end ends index files cutoff dry_run).2
            ≡ get p files)
  unfolding reclaim_before_in
  reclaim_before_in-kept size drop_end ends index files cutoff dry_run p h =
      let s = selection redb size cutoff index in
      elim (Bool-cases (dry_run || is_empty s.drop_paths)) [
        | inl idle ↦ rw idle (refl, refl)
        | inr busy ↦ rw busy (
            drop_blocks-Untouched ends (report_of cutoff dry_run s) index files s.drop_paths
              drop_end p (contains-selection redb size cutoff index p ∙ h))
      ]

  ok_report :
      (report report' : ReclaimReport) (r : Outcome)
      → with_report report r ≡ ok report'
      → report ≡ report'
  ok_report report report' (ok u) h = cc h
  ok_report report report' (err kind) h = cc h

  -- What a run that reports success has done.
  abbrev Reclaimed :
      Index redb → List Text → Bool → ReclaimReport → ReclaimReport → Index redb → Type 0
  Reclaimed index paths dry_run report report' index' =
      (report ≡ report')
      × ((p : Text)
          → contains (all_block_paths redb index') p
            ≡ (contains (all_block_paths redb index) p && (dry_run || not (contains paths p))))

  drop_blocks-Reclaimed :
      (ends : Text → Option ErrorKind) (report report' : ReclaimReport) (index : Index redb)
      (files : Files) (paths : List Text) (end : Option ErrorKind)
      → (remove_all redb ends report paths files (drop_blocks redb index paths end)).0 ≡ ok report'
      → Reclaimed index paths false report report'
          (remove_all redb ends report paths files (drop_blocks redb index paths end)).1
  unfolding drop_blocks
  drop_blocks-Reclaimed ends report report' index files [] end h =
      (ok_report report report' (remove_files ends [] files).0 h, λ p. ground arith)
  drop_blocks-Reclaimed ends report report' index files (q ∷ paths) (some kind) h =
      absurd (ground arith)
  drop_blocks-Reclaimed ends report report' index files (q ∷ paths) none h = (
    ok_report report report' (remove_files ends (q ∷ paths) files).0 h,
    λ p. (contains-drop_blocks redb index (q ∷ paths) [] p).0 ∙ ground arith,
  )

  idle-Reclaimed :
      (report report' : ReclaimReport) (index : Index redb) (paths : List Text) (dry_run : Bool)
      → (dry_run || is_empty paths) ≡ true
      → ◌≡◌ {A = Result ReclaimReport} (ok report) (ok report')
      → Reclaimed index paths dry_run report report' index
  idle-Reclaimed report report' index paths true idle h = (cc h, λ p. ground arith)
  idle-Reclaimed report report' index [] false idle h = (cc h, λ p. ground arith)
  idle-Reclaimed report report' index (q ∷ paths) false idle h = absurd (ground arith)

  run-Reclaimed :
      (size : Text → Option ℕ) (drop_end : Option ErrorKind) (ends : Text → Option ErrorKind)
      (index : Index redb) (files : Files) (cutoff : ℕ) (dry_run : Bool) (report : ReclaimReport)
      → (reclaim_before_in redb size drop_end ends index files cutoff dry_run).0 ≡ ok report
      → Reclaimed index
          (selection redb size cutoff index).drop_paths
          dry_run
          (report_of cutoff dry_run (selection redb size cutoff index))
          report
          (reclaim_before_in redb size drop_end ends index files cutoff dry_run).1
  unfolding reclaim_before_in
  run-Reclaimed size drop_end ends index files cutoff true report h =
      idle-Reclaimed _ report index (selection redb size cutoff index).drop_paths true refl h
  run-Reclaimed size drop_end ends index files cutoff false report h =
      decided (is_empty paths) refl h
    where
      paths : List Text
      paths = (selection redb size cutoff index).drop_paths

      planned : ReclaimReport
      planned = report_of cutoff false (selection redb size cutoff index)

      run : Bool → Result ReclaimReport × Index redb × Files
      run b =
          if b
          then (ok planned, index, files)
          else remove_all redb ends planned paths files (drop_blocks redb index paths drop_end)

      decided :
          (b : Bool)
          → is_empty paths ≡ b
          → (run b).0 ≡ ok report
          → Reclaimed index paths false planned report (run b).1
      decided true e g = idle-Reclaimed planned report index paths false e g
      decided false e g = drop_blocks-Reclaimed ends planned report index files paths drop_end g

  -- A run that reports success has counted every block of the index once, as dropped or as kept. If
  -- it is no dry run it has taken exactly the blocks below the cutoff out of the index; a dry run
  -- has changed nothing there.
  pub reclaim_before_in_lem :
      (size : Text → Option ℕ) (drop_end : Option ErrorKind) (ends : Text → Option ErrorKind)
      (index : Index redb) (files : Files) (cutoff : ℕ) (dry_run : Bool) (report : ReclaimReport)
      → (reclaim_before_in redb size drop_end ends index files cutoff dry_run).0 ≡ ok report
      → (report.blocks_dropped + report.blocks_kept ≡ block_count redb index)
        × ((p : Text)
            → contains
                (all_block_paths redb
                  (reclaim_before_in redb size drop_end ends index files cutoff dry_run).1)
                p
              ≡ (contains (all_block_paths redb index) p
                  && (dry_run || not (is_below cutoff (get_value p index.blocks)))))
  reclaim_before_in_lem size drop_end ends index files cutoff dry_run report h =
      let (same, listing) = run-Reclaimed size drop_end ends index files cutoff dry_run report h in
      (
        ap (λ (r : ReclaimReport). r.blocks_dropped + r.blocks_kept) (sym same)
            ∙ selection-block_count redb size cutoff index,
        λ p. listing p ∙ ground (arith, contains-selection redb size cutoff index p),
      )
