-- ===== src/Merge/Inputs.antt =====
-- src/store/merge.rs, the parts of `merge_chunk`: its output's name and contents, the reading of its
-- inputs and their retirement stamps. The rows of a block are the spans of its file; how each call
-- of the file system and the index ends is an argument, `MergeFaults`.
use evald.Prelude.{
  ℕ, ◌+◌, ◌%◌, ◌^◌, max, Option, none, some, List, [], ◌∷◌, ◌++◌, Text, bytes, text_beq, text_eq,
  nat_eq, leb, if◌then◌else◌,
}
use evald.Prelude.Decimal.{padded}
use evald.Prelude.Io.{ErrorKind, not_found, Result, Outcome, ok, err}
use evald.Prelude.Maps.{text_less, nat_less, text_ltb, get}
use evald.Model.{NormalizedSpan}
use evald.Key.{key_eq}
use evald.Index.{BlockMeta}
use evald.Flush.{Files, Publish, trace_ids_of, max_start}
use evald.Merge.{Footer, Candidate}

pub record MergeFaults : Type 0 where
  -- Of a block's footer, looked at for a directory.
  pub failing : Text → Text → Option ErrorKind
  -- Of an input's rows and of its retirement stamp, and of the output's publication and commit;
  -- each by the path of the output.
  pub read : Text → Text → Option ErrorKind
  pub stamp : Text → Text → Option ErrorKind
  pub publish : Text → Publish
  pub commit : Text → Option ErrorKind
  -- The length of the output file.
  pub encoded : Text → ℕ

abbrev pub add_u64 : ℕ → ℕ → ℕ
add_u64 a b = (a + b) % 2 ^ 64

abbrev pub sum_of : (Candidate → ℕ) → List Candidate → ℕ
sum_of field [] = 0
sum_of field (c ∷ rest) = add_u64 (field c) (sum_of field rest)

abbrev pub lowest : List Candidate → ℕ
lowest [] = 0
lowest (c ∷ []) = c.seqno_lo
lowest (c ∷ d ∷ rest) = let l = lowest (d ∷ rest) in if leb c.seqno_lo l then c.seqno_lo else l

abbrev pub highest : List Candidate → ℕ
highest [] = 0
highest (c ∷ rest) = max c.seqno_hi (highest rest)

abbrev pub output_rel : Text → Text → List Candidate → Text
output_rel out_dir prefix chunk =
    out_dir
    ++ bytes "/"
    ++ prefix
    ++ bytes "-"
    ++ padded (lowest chunk)
    ++ bytes "-"
    ++ padded (highest chunk)
    ++ bytes ".parquet"

-- `price_tables.sort(); price_tables.dedup()`, for the set that is left.
abbrev insert_version : Text → List Text → List Text
insert_version v [] = v ∷ []
insert_version v (w ∷ rest) =
    if text_beq v w
    then w ∷ rest
    else if text_ltb v w
    then v ∷ w ∷ rest
    else w ∷ insert_version v rest

abbrev insert_versions : List Text → List Text → List Text
insert_versions [] set = set
insert_versions (v ∷ versions) set = insert_version v (insert_versions versions set)

abbrev versions_of : List Candidate → List Text
versions_of [] = []
versions_of (c ∷ rest) = insert_versions c.price_tables (versions_of rest)

-- The rows of the inputs, by their paths.
abbrev pub Inputs : Type 0
Inputs = List (Text × List NormalizedSpan)

abbrev pub open_input :
    Option ErrorKind → Option (List NormalizedSpan) → Result (List NormalizedSpan)
open_input failure none = err not_found
open_input (some kind) (some spans) = err kind
open_input none (some spans) = ok spans

abbrev pub join_input : Text → Result (List NormalizedSpan) → Result Inputs → Result Inputs
join_input rel (err kind) later = err kind
join_input rel (ok spans) (err kind) = err kind
join_input rel (ok spans) (ok inputs) = ok ((rel, spans) ∷ inputs)

abbrev pub read_inputs : (Text → Option ErrorKind) → Files → List Candidate → Result Inputs
read_inputs failure files [] = ok []
read_inputs failure files (c ∷ chunk) =
    join_input c.rel (open_input (failure c.rel) (get c.rel files))
      (read_inputs failure files chunk)

abbrev pub rows_of : Inputs → List NormalizedSpan
rows_of [] = []
rows_of ((rel, spans) ∷ inputs) = spans ++ rows_of inputs

abbrev pub traces_of : Inputs → List (Text × List Text)
traces_of [] = []
traces_of ((rel, spans) ∷ inputs) = (rel, trace_ids_of spans) ∷ traces_of inputs

abbrev pub set_footer : Text → Footer → (Text → Footer) → Text → Footer
set_footer rel footer footers q = if text_beq rel q then footer else footers q

abbrev pub retired : ℕ → Footer → Footer
retired now footer = record footer { modified = some now }

abbrev stamp_one :
    Option ErrorKind → (Text → Footer) → Outcome × (Text → Footer) → Outcome × (Text → Footer)
stamp_one (some kind) footers later = (err kind, footers)
stamp_one none footers later = later

-- `mark_retired`, for each input; the first that cannot be stamped ends it.
abbrev pub stamp_each :
    (Text → Option ErrorKind)
    → ℕ
    → (Text → Footer)
    → List (Text × List Text)
    → Outcome × (Text → Footer)
stamp_each failure now footers [] = (ok tt, footers)
stamp_each failure now footers ((rel, traces) ∷ rest) =
    stamp_one (failure rel) footers
      (stamp_each failure now (set_footer rel (retired now (footers rel)) footers) rest)

abbrev pub output_meta : Text → Inputs → BlockMeta
output_meta out inputs = record {
  rel_path = out;
  max_start_unix_nano = max_start (rows_of inputs);
  trace_ids = trace_ids_of (rows_of inputs);
}

abbrev pub output_footer : ℕ → ℕ → List Candidate → Footer
output_footer now encoded chunk = record {
  bytes = encoded;
  modified = some now;
  seqno_lo = lowest chunk;
  seqno_hi = highest chunk;
  price_tables = versions_of chunk;
}
