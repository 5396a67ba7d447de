-- ===== src/Merge/Committed.antt =====
-- What a merge that succeeds has done to the index, the files and the stamps of its inputs.
use evald.Prelude.{
  ℕ, ◌≡◌, refl, true, false, Option, none, some, List, Text, text_beq, text_eq, Bool-cases,
  Option-cases, [], ◌∷◌, inl, inr,
}
use evald.Prelude.Io.{ErrorKind, Result, Outcome, ok, err}
use evald.Key.{key_eq}
use evald.Index.{Redb, commit_merge}
use evald.Flush.{Publish, published, unpublished, after_rename}
use evald.Merge.{Footer, Candidate}
use evald.Merge.Inputs.{
  MergeFaults, output_rel, Inputs, read_inputs, traces_of, stamp_each, set_footer, retired,
}
use evald.Merge.Pass.{
  Cold, Progress, after_stamps, with_output, merge_written, merge_read, merge_chunk, counted,
}
use evald.Merge.Swap.{is_input, index_after, files_after}
use evald.Merge.Effects.{AreInputs, IsNew, read_inputs-AreInputs}

module _ (redb : Redb) where
  -- The inputs carry the time of the merge.
  abbrev pub AreStamped : ℕ → (Text → Footer) → Inputs → Type 0
  AreStamped now footers inputs =
      (p : Text) → is_input inputs p ≡ true → (footers p).modified ≡ some now

  keeps_stamp :
      (failure : Text → Option ErrorKind) (now : ℕ) (footers : Text → Footer)
      (l : List (Text × List Text)) (p : Text)
      → (footers p).modified ≡ some now
      → ((stamp_each failure now footers l).1 p).modified ≡ some now
  keeps_stamp failure now footers [] p h = h
  keeps_stamp failure now footers ((rel, traces) ∷ l) p h = elim (Option-cases (failure rel)) [
    | inl e ↦ rw e (
        keeps_stamp failure now (set_footer rel (retired now (footers rel)) footers) l p
          (elim (Bool-cases (text_beq rel p)) [ inl same ↦ rw same refl | inr other ↦ rw other h ]))
    | inr (kind, e) ↦ rw e h
  ]

  -- Every input is stamped, if no stamp fails.
  stamp_each_ok :
      (failure : Text → Option ErrorKind) (now : ℕ) (footers : Text → Footer) (inputs : Inputs)
      (p : Text)
      → (stamp_each failure now footers (traces_of inputs)).0 ≡ ok tt
      → is_input inputs p ≡ true
      → ((stamp_each failure now footers (traces_of inputs)).1 p).modified ≡ some now
  stamp_each_ok failure now footers [] p h named = cc
  stamp_each_ok failure now footers ((rel, spans) ∷ inputs) p h named =
      elim (Option-cases (failure rel)) [
        | inr (kind, e) ↦ cc (rw e at h)
        | inl e ↦ rw e (elim (Bool-cases (text_beq rel p)) [
          | inl same ↦
              keeps_stamp failure now (set_footer rel (retired now (footers rel)) footers)
                (traces_of inputs) p (rw same refl)
          | inr other ↦
              stamp_each_ok failure now (set_footer rel (retired now (footers rel)) footers) inputs
                p (rw e at h) (rw other at named)
        ])
      ]

  abbrev pub Committed : ℕ → Cold redb → Cold redb → Text → List Candidate → Type 0
  Committed now before after out chunk =
      (inputs : Inputs) × AreInputs before.files chunk inputs
      × AreStamped now after.footers inputs
      × (after.index ≡ index_after redb before.index out inputs)
      × (after.files ≡ files_after redb before.files out inputs)

  module _ (faults : MergeFaults) (now : ℕ) (out : Text) (chunk : List Candidate)
      (st : Progress redb) where
    after_stamps-Committed :
        (inputs : Inputs) (r : Outcome × (Text → Footer)) (failure : Option ErrorKind)
        → faults.commit out ≡ failure
        → AreInputs st.cold.files chunk inputs
        → (r.0 ≡ ok tt → AreStamped now r.1 inputs)
        → (let r' =
              after_stamps redb faults out inputs
                (with_output redb faults now out chunk inputs st)
                r in
            r'.0 ≡ ok tt → Committed now st.cold r'.1.cold out chunk)
    unfolding commit_merge
    after_stamps-Committed inputs (err kind, footers) failure e read stamped h = cc h
    after_stamps-Committed inputs (ok u, footers) (some kind) e read stamped h = cc (rw e at h)
    after_stamps-Committed inputs (ok u, footers) none e read stamped h =
        rw e (inputs, read, stamped refl, refl, refl)

    merge_written-Committed :
        (inputs : Inputs) (publish : Publish)
        → AreInputs st.cold.files chunk inputs
        → (merge_written redb faults now out chunk inputs st publish).0 ≡ ok tt
        → Committed now st.cold
            (merge_written redb faults now out chunk inputs st publish).1.cold
            out
            chunk
    merge_written-Committed inputs (unpublished kind) read h = cc h
    merge_written-Committed inputs (after_rename kind) read h = cc h
    merge_written-Committed inputs published read h =
        let footers = (with_output redb faults now out chunk inputs st).cold.footers in
        after_stamps-Committed inputs (stamp_each (faults.stamp out) now footers (traces_of inputs))
          (faults.commit out) refl read
          (λ done p named. stamp_each_ok (faults.stamp out) now footers inputs p done named) h

    merge_read-Committed :
        (r : Result Inputs)
        → ((inputs : Inputs) → r ≡ ok inputs → AreInputs st.cold.files chunk inputs)
        → (merge_read redb faults now out chunk st r).0 ≡ ok tt
        → Committed now st.cold (merge_read redb faults now out chunk st r).1.cold out chunk
    merge_read-Committed (err kind) read h = cc h
    merge_read-Committed (ok inputs) read h =
        merge_written-Committed inputs (faults.publish out) (read inputs refl) h

  pub merge_chunk-Committed :
      (faults : MergeFaults) (now : ℕ) (dir prefix : Text) (chunk : List Candidate)
      (st : Progress redb)
      → IsNew redb (output_rel dir prefix chunk) chunk
      → (merge_chunk redb faults now false dir prefix chunk st).0 ≡ ok tt
      → Committed now st.cold
          (merge_chunk redb faults now false dir prefix chunk st).1.cold
          (output_rel dir prefix chunk)
          chunk
  unfolding merge_chunk
  merge_chunk-Committed faults now dir prefix chunk st new =
      let out = output_rel dir prefix chunk in
      rw new (
        merge_read-Committed faults now out chunk (counted redb st chunk)
          (read_inputs (faults.read out) st.cold.files chunk)
          (λ inputs e. read_inputs-AreInputs (faults.read out) st.cold.files chunk inputs e))
