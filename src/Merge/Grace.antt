-- ===== src/Merge/Grace.antt =====
-- Which files a sweep removes, and the grace of a merge's inputs.
use evald.Prelude.{
  ℕ, suc, ◌+◌, ◌<◌, ◌≡◌, ◌⊎◌, refl, sym, ap, ◌∙◌, Bool, true, false, ◌&&◌, any, Option, none, some,
  List, [], ◌∷◌, Text, bytes, text_beq, text_beq_iff, text_eq, contains, ends_with, arith,
  Bool-cases, inl, inr,
}
use evald.Prelude.Io.{ErrorKind, Result, ok, err}
use evald.Prelude.Maps.{get, delete, get-delete}
use evald.Index.{Redb, all_block_paths}
use evald.Flush.{Files}
use evald.Merge.{Candidate}
use evald.Merge.Plan.{has_rested}
use evald.Merge.Inputs.{MergeFaults, output_rel}
use evald.Merge.Pass.{Cold, Progress, merge_chunk}
use evald.Merge.Swap.{other_kept}
use evald.Merge.Effects.{IsNew}
use evald.Merge.Committed.{merge_chunk-Committed}
use evald.Merge.Cold.{is_stray, removed_one, and_removed, visit, sweep_each, sweep_unindexed}

module _ (redb : Redb) (failure : Text → Option ErrorKind) (modified : Text → Option ℕ)
    (now older_than : ℕ) (known : List Text) where
  -- What the walk removes.
  abbrev pub is_due : Text → Bool
  is_due rel = is_stray redb known rel && has_rested (modified rel) now older_than

  removed_one-other :
      (o : Option ErrorKind) (rel p : Text) (removed : ℕ) (files : Files)
      → text_beq rel p ≡ false
      → get p (removed_one redb o rel removed files).1 ≡ get p files
  removed_one-other none rel p removed files e = get-delete rel p files ∙ rw e refl
  removed_one-other (some kind) rel p removed files e = refl

  and_removed-get :
      (r : Result ℕ × Files) (next : ℕ → Files → Result ℕ × Files) (p : Text) (files : Files)
      → ((n : ℕ) (f : Files) → get p f ≡ get p files → get p (next n f).1 ≡ get p files)
      → get p r.1 ≡ get p files
      → get p (and_removed redb r next).1 ≡ get p files
  and_removed-get (err kind, f) next p files later h = h
  and_removed-get (ok n, f) next p files later h = later n f h

  visit-kept :
      (rel p : Text) (removed : ℕ) (files : Files)
      → is_due p ≡ false
      → get p (visit redb failure modified now older_than known rel removed files).1 ≡ get p files
  visit-kept rel p removed files h = elim (Bool-cases (is_due rel)) [
    | inl e ↦ rw e (removed_one-other (failure rel) rel p removed files (differs e))
    | inr e ↦ rw e refl
  ]
    where
      differs : is_due rel ≡ true → text_beq rel p ≡ false
      differs e = elim (Bool-cases (text_beq rel p)) [
        | inl same ↦ cc (sym e ∙ ap is_due ((text_beq_iff rel p).0 same) ∙ h)
        | inr other ↦ other
      ]

  sweep_each-kept :
      (walk : List Text) (p : Text) (removed : ℕ) (files : Files)
      → is_due p ≡ false
      → get p (sweep_each redb failure modified now older_than known walk removed files).1
        ≡ get p files
  unfolding sweep_each
  sweep_each-kept [] p removed files h = refl
  sweep_each-kept (rel ∷ rest) p removed files h =
      and_removed-get (visit redb failure modified now older_than known rel removed files)
        (λ n f. sweep_each redb failure modified now older_than known rest n f) p files
        (λ n f e. sweep_each-kept rest p n f h ∙ e) (visit-kept rel p removed files h)

  -- A path that is gone stays gone.
  visit-gone :
      (rel p : Text) (removed : ℕ) (files : Files)
      → get p files ≡ none
      → get p (visit redb failure modified now older_than known rel removed files).1 ≡ none
  visit-gone rel p removed files h = elim (Bool-cases (is_due rel)) [
    | inl e ↦ rw e (gone (failure rel))
    | inr e ↦ rw e h
  ]
    where
      gone : (o : Option ErrorKind) → get p (removed_one redb o rel removed files).1 ≡ none
      gone none = get-delete rel p files ∙ ground (arith, h)
      gone (some kind) = h

  module _ (sound : (rel : Text) → failure rel ≡ none) where
    and_removed-none :
        (r : Result ℕ × Files) (next : ℕ → Files → Result ℕ × Files) (p : Text)
        → ((n : ℕ) (f : Files) → get p f ≡ none → get p (next n f).1 ≡ none)
        → get p r.1 ≡ none
        → get p (and_removed redb r next).1 ≡ none
    and_removed-none (err kind, f) next p later h = h
    and_removed-none (ok n, f) next p later h = later n f h

    sweep_each-gone :
        (walk : List Text) (p : Text) (removed : ℕ) (files : Files)
        → get p files ≡ none
        → get p (sweep_each redb failure modified now older_than known walk removed files).1 ≡ none
    unfolding sweep_each
    sweep_each-gone [] p removed files h = h
    sweep_each-gone (rel ∷ rest) p removed files h =
        and_removed-none (visit redb failure modified now older_than known rel removed files)
          (λ n f. sweep_each redb failure modified now older_than known rest n f) p
          (λ n f e. sweep_each-gone rest p n f e) (visit-gone rel p removed files h)

    sweep_each-due :
        (walk : List Text) (p : Text) (removed : ℕ) (files : Files)
        → contains walk p ≡ true
        → is_due p ≡ true
        → get p (sweep_each redb failure modified now older_than known walk removed files).1 ≡ none
    unfolding sweep_each
    sweep_each-due [] p removed files h due = cc
    sweep_each-due (rel ∷ rest) p removed files h due = elim (Bool-cases (text_beq rel p)) [
      | inl e ↦
          let same = (text_beq_iff rel p).0 e in
          rw (ap is_due same ∙ due, sound rel)
            (sweep_each-gone rest p (suc removed) (delete rel files)
              (get-delete rel p files ∙ rw e refl))
      | inr e ↦
          let later : contains rest p ≡ true = ground (arith, h, e) in
          elim (Bool-cases (is_due rel)) [
            | inl d ↦
                rw (d, sound rel) (sweep_each-due rest p (suc removed) (delete rel files) later due)
            | inr d ↦ rw d (sweep_each-due rest p removed files later due)
          ]
    ]

module _ (redb : Redb) (failure : Text → Option ErrorKind) (now older_than : ℕ) (walk : List Text)
    (cold : Cold redb) (p : Text) where
  abbrev indexed : List Text
  indexed = all_block_paths redb cold.index

  abbrev rested : Bool
  rested = has_rested (cold.footers p).modified now older_than

  abbrev swept : Files
  swept = (sweep_unindexed redb failure now older_than walk cold).1

  -- A sweep leaves the file of every block that the index holds, and every file that was not modified
  -- long enough ago, wherever it stops; the names of temporary files are no block's. If no removal fails, the
  -- other Parquet files that it meets, and the temporary ones, are gone.
  pub sweep_unindexed_lem :
      ((contains indexed p ≡ true) × (ends_with p (bytes ".tmp") ≡ false)
        → get p swept ≡ get p cold.files)
      × (rested ≡ false → get p swept ≡ get p cold.files)
      × (((rel : Text) → failure rel ≡ none)
          → contains walk p ≡ true
          → is_stray redb indexed p ≡ true
          → rested ≡ true
          → get p swept ≡ none)
  unfolding sweep_unindexed
  sweep_unindexed_lem =
      let modified = λ (rel : Text). (cold.footers rel).modified in
      (
        λ (held, named).
            sweep_each-kept redb failure modified now older_than indexed walk p 0 cold.files
              (rw (named, held) (ground arith)),
        λ young.
            sweep_each-kept redb failure modified now older_than indexed walk p 0 cold.files
              (rw young (ground arith)),
        λ sound met stray old.
            sweep_each-due redb failure modified now older_than indexed sound walk p 0 cold.files
              met (rw (stray, old) refl),
      )

module _ (redb : Redb) where
  -- The files of a merge's inputs outlive it by the grace: a sweep that starts less than `grace` after a
  -- merge that succeeded leaves them as they were before the merge. The output's name is none of
  -- theirs.
  pub merge_chunk-grace :
      (faults : MergeFaults) (merged_at : ℕ) (dir prefix : Text) (chunk : List Candidate)
      (st : Progress redb) (failure : Text → Option ErrorKind) (now grace : ℕ) (walk : List Text)
      (p : Text)
      → IsNew redb (output_rel dir prefix chunk) chunk
      → (merge_chunk redb faults merged_at false dir prefix chunk st).0 ≡ ok tt
      → any (λ (c : Candidate). text_beq c.rel p) chunk ≡ true
      → now < merged_at + grace
      → let merged = (merge_chunk redb faults merged_at false dir prefix chunk st).1.cold in
        get p (sweep_unindexed redb failure now grace walk merged).1 ≡ get p st.cold.files
  merge_chunk-grace faults merged_at dir prefix chunk st failure now grace walk p new succeeds is_in
        early =
      let out = output_rel dir prefix chunk in
      let merged = (merge_chunk redb faults merged_at false dir prefix chunk st).1.cold in
      let (inputs, (read, named), stamped, i, f) =
        merge_chunk-Committed redb faults merged_at dir prefix chunk st new succeeds in
      let stamp = stamped p (named p ∙ is_in) in
      (sweep_unindexed_lem redb failure now grace walk merged p).1
        (rw stamp (ground (arith, early)))
      ∙ ap (λ (files : Files). get p files) f
      ∙ other_kept redb st.cold.files out p inputs (differs (Bool-cases (text_beq out p)))
    where
      differs :
          (text_beq (output_rel dir prefix chunk) p ≡ true)
            ⊎ (text_beq (output_rel dir prefix chunk) p ≡ false)
          → text_beq (output_rel dir prefix chunk) p ≡ false
      differs (inr other) = other
      differs (inl same) = cc (
          sym is_in
          ∙ sym (
              ap (λ (q : Text). any (λ (c : Candidate). text_beq c.rel q) chunk)
                ((text_beq_iff (output_rel dir prefix chunk) p).0 same))
          ∙ new)
