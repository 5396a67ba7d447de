-- ===== src/Merge/Swap.antt =====
-- What the cold tier holds after the swap of some blocks for one.
use evald.Prelude.{
  ◌≡◌, ◌↔◌, ◌⊎◌, refl, sym, ap, ◌∙◌, Bool, true, false, ◌&&◌, ◌||◌, not, any, none, some, List, [],
  ◌∷◌, Text, text_beq, text_beq_iff, text_eq, contains, arith, Bool-cases, inl, inr, beq_refl,
  Option,
}
use evald.Prelude.Copies.{first_copies, contains-first_copies}
use evald.Prelude.Maps.{text_less, get, put, get-put}
use evald.Model.{NormalizedSpan}
use evald.Key.{SpanKey, span_key, key_eq}
use evald.Hot.{or_default}
use evald.Index.{Redb, Index, all_block_paths, commit_merge}
use evald.Index.Merged.{contains-commit_merge}
use evald.Query.Distinct.{identities, contains-identities-append}
use evald.Flush.{Files}
use evald.Merge.Inputs.{Inputs, rows_of, traces_of, output_meta}

-- Whether a path is an input's.
abbrev pub is_input : Inputs → Text → Bool
is_input inputs p = any (λ (i : Text × List Text). text_beq i.0 p) (traces_of inputs)

-- The inputs are what their files hold.
abbrev pub AreRead : Files → Inputs → Type 0
AreRead files [] = Unit
AreRead files ((rel, spans) ∷ inputs) = (get rel files ≡ some spans) × AreRead files inputs

-- A row of the inputs is in one of their files, and conversely.
pub row_of_input :
    (files : Files) (inputs : Inputs) (k : SpanKey)
    → AreRead files inputs
    → contains (identities (rows_of inputs)) k ≡ true
    → (p : Text) × (is_input inputs p ≡ true)
      × (contains (identities (or_default (get p files))) k ≡ true)
row_of_input files [] k read h = cc
row_of_input files ((rel, spans) ∷ inputs) k read h =
    elim (Bool-cases (contains (identities spans) k)) [
      | inl here ↦ (rel, rw (beq_refl rel) refl, rw (read.0) here)
      | inr later ↦
          let (p, named, found) =
            row_of_input files inputs k read.1
              (ground (arith, contains-identities-append spans (rows_of inputs) k)) in
          (p, ground arith, found)
    ]

pub input_of_row :
    (files : Files) (inputs : Inputs) (k : SpanKey) (p : Text)
    → AreRead files inputs
    → is_input inputs p ≡ true
    → contains (identities (or_default (get p files))) k ≡ true
    → contains (identities (rows_of inputs)) k ≡ true
input_of_row files [] k p read named found = cc
input_of_row files ((rel, spans) ∷ inputs) k p read named found =
    contains-identities-append spans (rows_of inputs) k ∙ elim (Bool-cases (text_beq rel p)) [
      | inl e ↦
          let same : get p files ≡ some spans =
            ap (λ (q : Text). get q files) (sym ((text_beq_iff rel p).0 e)) ∙ read.0 in
          let here : contains (identities spans) k ≡ true =
            sym (
              ap (λ (o : Option (List NormalizedSpan)). contains (identities (or_default o)) k)
                same)
            ∙ found in
          ground (arith, here)
      | inr e ↦ ground (arith, input_of_row files inputs k p read.1 (rw e at named) found)
    ]

module _ (redb : Redb) where
  -- An identity in a block that the index holds.
  abbrev pub InBlock : Index redb → Files → SpanKey → Text → Type 0
  InBlock index files k p =
      (contains (all_block_paths redb index) p ≡ true)
      × (contains (identities (or_default (get p files))) k ≡ true)

  abbrev pub InCold : Index redb → Files → SpanKey → Type 0
  InCold index files k = (p : Text) × InBlock index files k p

  -- The index once the transaction is committed, and the files once the output is written.
  abbrev pub index_after : Index redb → Text → Inputs → Index redb
  index_after index out inputs =
      (commit_merge redb index (output_meta out inputs) (traces_of inputs) none).1

  abbrev pub files_after : Files → Text → Inputs → Files
  files_after files out inputs = put out (first_copies span_key [] (rows_of inputs)) files

  -- A block that is neither the output nor an input.
  abbrev pub IsOther : Text → Inputs → Text → Type 0
  IsOther out inputs p = (text_beq out p ≡ false) × (is_input inputs p ≡ false)

  output_file :
      (files : Files) (out : Text) (inputs : Inputs)
      → get out (files_after files out inputs) ≡ some (first_copies span_key [] (rows_of inputs))
  output_file files out inputs =
      get-put out out (first_copies span_key [] (rows_of inputs)) files ∙ rw (beq_refl out) refl

  output_holds :
      (files : Files) (out : Text) (inputs : Inputs) (k : SpanKey)
      → contains (identities (or_default (get out (files_after files out inputs)))) k
        ≡ contains (identities (rows_of inputs)) k
  output_holds files out inputs k =
      ap (λ (o : Option (List NormalizedSpan)). contains (identities (or_default o)) k)
        (output_file files out inputs)
      ∙ contains-first_copies span_key [] (rows_of inputs) k

  pub other_kept :
      (files : Files) (out p : Text) (inputs : Inputs)
      → text_beq out p ≡ false
      → get p (files_after files out inputs) ≡ get p files
  other_kept files out p inputs e =
      get-put out p (first_copies span_key [] (rows_of inputs)) files ∙ rw e refl

  -- What the cold tier holds after the swap, whatever stood at the output's path before it: the
  -- rows of the inputs, and the blocks that are neither inputs nor the output.
  pub InCold-swap :
      (index : Index redb) (files : Files) (out : Text) (inputs : Inputs) (k : SpanKey)
      → InCold (index_after index out inputs) (files_after files out inputs) k ↔ (
          (contains (identities (rows_of inputs)) k ≡ true)
          ⊎ (p : Text) × IsOther out inputs p × InBlock index files k p)
  InCold-swap index files out inputs k = (forth, back)
    where
      listing :
          (p : Text)
          → contains (all_block_paths redb (index_after index out inputs)) p
            ≡ (text_beq out p || not (is_input inputs p) && contains (all_block_paths redb index) p)
      listing p = contains-commit_merge redb index (output_meta out inputs) (traces_of inputs) p

      forth :
          InCold (index_after index out inputs) (files_after files out inputs) k
          → (contains (identities (rows_of inputs)) k ≡ true)
            ⊎ (p : Text) × IsOther out inputs p × InBlock index files k p
      forth (p, (held, found)) = elim (Bool-cases (text_beq out p)) [
        | inl e ↦ inl (
            sym (output_holds files out inputs k)
            ∙ ap
                (λ (q : Text).
                  contains (identities (or_default (get q (files_after files out inputs)))) k)
                ((text_beq_iff out p).0 e)
            ∙ found)
        | inr e ↦ inr (
          p,
          (e, ground (arith, listing p)),
          (ground (arith, listing p), rw (sym (other_kept files out p inputs e)) found),
        )
      ]

      back :
          (contains (identities (rows_of inputs)) k ≡ true)
            ⊎ (p : Text) × IsOther out inputs p × InBlock index files k p
          → InCold (index_after index out inputs) (files_after files out inputs) k
      back (inl row) =
          (out, (listing out ∙ rw (beq_refl out) refl, output_holds files out inputs k ∙ row))
      back (inr (p, other, (held, found))) =
          (p, (ground (arith, listing p), rw (other_kept files out p inputs other.0) found))
