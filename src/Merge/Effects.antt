-- ===== src/Merge/Effects.antt =====
-- How the merge of a chunk can end, for the index and the files.
use mathlib.Core.Path.{subst}
use evald.Prelude.{
  ℕ, ◌≡◌, refl, Bool, false, any, Option, none, some, List, [], ◌∷◌, Text, text_beq, text_eq,
  Bool-cases, inl, inr,
}
use evald.Prelude.Io.{ErrorKind, Result, Outcome, ok, err}
use evald.Prelude.Maps.{text_less, get}
use evald.Model.{NormalizedSpan}
use evald.Key.{key_eq}
use evald.Index.{Redb, commit_merge}
use evald.Flush.{Files, Publish, published, unpublished, after_rename}
use evald.Merge.{Footer, Candidate}
use evald.Merge.Inputs.{MergeFaults, output_rel, Inputs, read_inputs, join_input, open_input}
use evald.Merge.Pass.{
  Cold, Progress, after_stamps, with_output, merge_written, merge_read, merge_chunk, counted,
}
use evald.Merge.Swap.{is_input, AreRead, index_after, files_after}

-- The inputs that are read are the chunk's files.
abbrev pub AreInputs : Files → List Candidate → Inputs → Type 0
AreInputs files chunk inputs =
    AreRead files inputs
    × ((p : Text) → is_input inputs p ≡ any (λ (c : Candidate). text_beq c.rel p) chunk)

join_input-AreInputs :
    (files : Files) (c : Candidate) (chunk : List Candidate) (failure : Option ErrorKind)
    (o : Option (List NormalizedSpan)) (later : Result Inputs) (inputs : Inputs)
    → get c.rel files ≡ o
    → ((rest : Inputs) → later ≡ ok rest → AreInputs files chunk rest)
    → join_input c.rel (open_input failure o) later ≡ ok inputs
    → AreInputs files (c ∷ chunk) inputs
join_input-AreInputs files c chunk failure none later inputs e rest h = cc h
join_input-AreInputs files c chunk (some kind) (some spans) later inputs e rest h = cc h
join_input-AreInputs files c chunk none (some spans) (err kind) inputs e rest h = cc h
join_input-AreInputs files c chunk none (some spans) (ok more) inputs e rest h =
    let (read, named) = rest more refl in
    subst (AreInputs files (c ∷ chunk)) {x = (c.rel, spans) ∷ more} {y = inputs} (cc h)
      ((e, read), λ p. rw (named p) refl)

pub read_inputs-AreInputs :
    (failure : Text → Option ErrorKind) (files : Files) (chunk : List Candidate) (inputs : Inputs)
    → read_inputs failure files chunk ≡ ok inputs
    → AreInputs files chunk inputs
read_inputs-AreInputs failure files [] inputs h =
    subst (AreInputs files []) {x = []} {y = inputs} (cc h) (tt, λ p. refl)
read_inputs-AreInputs failure files (c ∷ chunk) inputs h =
    join_input-AreInputs files c chunk (failure c.rel) (get c.rel files)
      (read_inputs failure files chunk) inputs refl
      (λ rest e. read_inputs-AreInputs failure files chunk rest e) h

module _ (redb : Redb) where
  -- The output's path is none of the chunk's.
  abbrev pub IsNew : Text → List Candidate → Type 0
  IsNew out chunk = any (λ (c : Candidate). text_beq c.rel out) chunk ≡ false

  pub data Effect (before after : Cold redb) (out : Text) (chunk : List Candidate) : Type 0 where
    skipped :
        after.index ≡ before.index → after.files ≡ before.files → Effect before after out chunk
    written :
        (inputs : Inputs)
        → IsNew out chunk
        → AreInputs before.files chunk inputs
        → after.index ≡ before.index
        → after.files ≡ files_after redb before.files out inputs
        → Effect before after out chunk
    committed :
        (inputs : Inputs)
        → IsNew out chunk
        → AreInputs before.files chunk inputs
        → after.index ≡ index_after redb before.index out inputs
        → after.files ≡ files_after redb before.files out inputs
        → Effect before after out chunk

  module _ (faults : MergeFaults) (now : ℕ) (out : Text) (chunk : List Candidate)
      (st : Progress redb) (is_new : IsNew out chunk) where
    after_stamps-Effect :
        (inputs : Inputs) (r : Outcome × (Text → Footer)) (failure : Option ErrorKind)
        → faults.commit out ≡ failure
        → AreInputs st.cold.files chunk inputs
        → Effect st.cold
            (after_stamps redb faults out inputs
              (with_output redb faults now out chunk inputs st)
              r).1.cold
            out
            chunk
    unfolding commit_merge
    after_stamps-Effect inputs (err kind, footers) failure e read =
        written inputs is_new read refl refl
    after_stamps-Effect inputs (ok u, footers) (some kind) e read =
        rw e (written inputs is_new read refl refl)
    after_stamps-Effect inputs (ok u, footers) none e read =
        rw e (committed inputs is_new read refl refl)

    merge_written-Effect :
        (inputs : Inputs) (publish : Publish)
        → AreInputs st.cold.files chunk inputs
        → Effect st.cold
            (merge_written redb faults now out chunk inputs st publish).1.cold
            out
            chunk
    merge_written-Effect inputs (unpublished kind) read = skipped refl refl
    merge_written-Effect inputs (after_rename kind) read = written inputs is_new read refl refl
    merge_written-Effect inputs published read =
        after_stamps-Effect inputs _ (faults.commit out) refl read

    merge_read-Effect :
        (r : Result Inputs)
        → ((inputs : Inputs) → r ≡ ok inputs → AreInputs st.cold.files chunk inputs)
        → Effect st.cold (merge_read redb faults now out chunk st r).1.cold out chunk
    merge_read-Effect (err kind) read = skipped refl refl
    merge_read-Effect (ok inputs) read =
        merge_written-Effect inputs (faults.publish out) (read inputs refl)

  -- Every way in which a chunk's merge can end.
  pub merge_chunk-Effect :
      (faults : MergeFaults) (now : ℕ) (dry_run : Bool) (dir prefix : Text) (chunk : List Candidate)
      (st : Progress redb)
      → Effect st.cold
          (merge_chunk redb faults now dry_run dir prefix chunk st).1.cold
          (output_rel dir prefix chunk)
          chunk
  unfolding merge_chunk
  merge_chunk-Effect faults now dry_run dir prefix chunk st =
      let out = output_rel dir prefix chunk in
      elim (Bool-cases (any (λ (c : Candidate). text_beq c.rel out) chunk)) [
        | inl e ↦ rw e (skipped refl refl)
        | inr e ↦ elim (Bool-cases dry_run) [
          | inl d ↦ rw (e, d) (skipped refl refl)
          | inr d ↦
              rw (e, d)
                (merge_read-Effect faults now out chunk (counted redb st chunk) e
                  (read_inputs (faults.read out) st.cold.files chunk)
                  (λ inputs h.
                    read_inputs-AreInputs (faults.read out) st.cold.files chunk inputs h))
        ]
      ]
