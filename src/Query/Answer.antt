-- ===== src/Query/Answer.antt =====
-- `query` against its specification.
use mathlib.Core.Path.{fun_ext}
use evald.Prelude.{
  ℕ, ◌≡◌, refl, ap, ◌∙◌, Bool, Option, some, List, [], ◌++◌, map, Text, keep, nat_beq, Bool-cases,
  inl, inr, if◌then◌else◌, arith,
}
use evald.Prelude.Io.{Result, ok, err, ◌>>=◌, Result-cases}
use evald.Prelude.Copies.{first_copies, seen_after, contains-seen_after}
use evald.Model.{NormalizedSpan}
use evald.Key.{span_key, key_eq}
use evald.Rows.{Rows, rows_new}
use evald.Hot.{HotTier, all_spans}
use evald.Query.{
  ColdView, Selected, trace_matches, is_not_found, list_blocks, rows_into_vec, push_rows,
  select_hot, select_cold, query_loop, query,
}
use evald.Query.Select.{newest_rows, into_vec-push_rows, push_rows-append, newest_rows-newest_rows}
use evald.Query.Scan.{
  read_blocks, candidate, rows-select_hot, seen-select_hot, rows-select_cold, scan_blocks-ending,
}

-- The spans of a trace, or all of them.
abbrev pub of_trace : Option Text → List NormalizedSpan → List NormalizedSpan
of_trace filter = keep (trace_matches filter)

-- The first copy of each identity, hot before cold: a resident span suppresses its cold copies.
unfoldable pub visible_hot : Option Text → HotTier → List NormalizedSpan
visible_hot filter hot = first_copies span_key [] (of_trace filter (all_spans hot))

unfoldable pub visible_cold : Option Text → HotTier → List NormalizedSpan → List NormalizedSpan
visible_cold filter hot cold =
    let resident = map span_key (of_trace filter (all_spans hot)) in
    first_copies span_key [] (keep (candidate filter resident) cold)

unfoldable pub visible : Option Text → HotTier → List NormalizedSpan → List NormalizedSpan
unfolding visible_hot visible_cold
visible filter hot cold = visible_hot filter hot ++ visible_cold filter hot cold

-- Every block that the index lists, read in order.
unfoldable pub read_listed : ColdView → Option Text → Result (List NormalizedSpan)
unfolding read_blocks
read_listed view filter = do paths ← list_blocks view filter; read_blocks view paths

-- The cold spans of a query: those of the first attempt, or of a second one if a block was gone.
unfoldable pub cold_spans : (ℕ → ColdView) → Option Text → Result (List NormalizedSpan)
unfolding read_listed
cold_spans view filter = elim (list_blocks (view 1) filter) [
  | err kind ↦ err kind
  | ok paths ↦ elim (read_blocks (view 1) paths) [
    | ok spans ↦ ok spans
    | err kind ↦ if is_not_found kind then read_listed (view 2) filter else err kind
  ]
]

candidate-seen :
    (filter : Option Text) (hot : HotTier)
    → candidate filter (seen_after span_key [] (of_trace filter (all_spans hot)))
      ≡ candidate filter (map span_key (of_trace filter (all_spans hot)))
candidate-seen filter hot = fun_ext λ s.
    ground (arith, contains-seen_after span_key [] (of_trace filter (all_spans hot)) (span_key s))

module _ (hot : HotTier) (filter : Option Text) (limit : ℕ) where
  abbrev start_state : Selected
  start_state = record { seen = []; rows = rows_new limit }

  abbrev after_hot : Selected
  after_hot = select_hot filter start_state (all_spans hot)

  cold_rows :
      (cold : List NormalizedSpan)
      → (select_cold filter after_hot.seen start_state cold).rows
        ≡ push_rows (rows_new limit) (visible_cold filter hot cold)
  unfolding visible_cold
  cold_rows cold =
      rows-select_cold filter after_hot.seen start_state cold
      ∙ ap
          (λ (c : NormalizedSpan → Bool).
            push_rows (rows_new limit) (first_copies span_key [] (keep c cold)))
          (ap (candidate filter) (seen-select_hot filter start_state (all_spans hot))
            ∙ candidate-seen filter hot)

  -- The rows of an attempt that read every block.
  rows_complete :
      (cold : List NormalizedSpan)
      → rows_into_vec (
          push_rows after_hot.rows
            (rows_into_vec (select_cold filter after_hot.seen start_state cold).rows))
        ≡ newest_rows limit (visible filter hot cold)
  unfolding visible visible_hot
  rows_complete cold =
      ap (λ (r : Rows). rows_into_vec (push_rows after_hot.rows (rows_into_vec r))) (cold_rows cold)
      ∙ ap (λ (l : List NormalizedSpan). rows_into_vec (push_rows after_hot.rows l))
          (into_vec-push_rows limit (visible_cold filter hot cold))
      ∙ ap
          (λ (r : Rows).
            rows_into_vec (push_rows r (newest_rows limit (visible_cold filter hot cold))))
          (rows-select_hot filter start_state (all_spans hot))
      ∙ ap rows_into_vec (
          push_rows-append (rows_new limit) (visible_hot filter hot)
            (newest_rows limit (visible_cold filter hot cold)))
      ∙ into_vec-push_rows limit _
      ∙ newest_rows-newest_rows limit (visible_hot filter hot) (visible_cold filter hot cold)

  -- The result of a query whose cold read gave `r`.
  abbrev pub answer : Result (List NormalizedSpan) → Result (List NormalizedSpan)
  answer (ok cold) = ok (newest_rows limit (visible filter hot cold))
  answer (err kind) = err kind

  -- What a round of the loop returns when it does not start over.
  second_round :
      (view : ℕ → ColdView)
      → query_loop 1 view filter limit after_hot.seen after_hot.rows 2
        ≡ some (answer (read_listed (view 2) filter))
  unfolding query_loop read_listed
  second_round view = elim (Result-cases (list_blocks (view 2) filter)) [
    | inr (kind, e) ↦ rw (e, query_loop) refl
    | inl (paths, e) ↦ elim (Result-cases (read_blocks (view 2) paths)) [
      | inr (kind, f) ↦
          ground (arith, scan_blocks-ending (view 2) filter after_hot.seen 2 start_state paths)
      | inl (cold, f) ↦ ground (
        arith,
        scan_blocks-ending (view 2) filter after_hot.seen 2 start_state paths,
        rows_complete cold,
      )
    ]
  ]

  first_round :
      (view : ℕ → ColdView)
      → query_loop 2 view filter limit after_hot.seen after_hot.rows 1
        ≡ some (answer (cold_spans view filter))
  unfolding query_loop cold_spans
  first_round view = elim (Result-cases (list_blocks (view 1) filter)) [
    | inr (kind, e) ↦ ground arith
    | inl (paths, e) ↦ elim (Result-cases (read_blocks (view 1) paths)) [
      | inr (kind, f) ↦ ground (
        arith,
        scan_blocks-ending (view 1) filter after_hot.seen 1 start_state paths,
        second_round view,
      )
      | inl (cold, f) ↦ ground (
        arith,
        scan_blocks-ending (view 1) filter after_hot.seen 1 start_state paths,
        rows_complete cold,
      )
    ]
  ]

-- A query always returns: two rounds of the loop are enough. It returns the first `limit` of the
-- de-duplicated union of both tiers, newest first and ties in order of arrival (all of it for
-- `usize::MAX`), or the error of the read that failed. A block that is gone on the first attempt
-- leads to a second one, on the listing of then.
pub query_lem :
    (hot : HotTier) (view : ℕ → ColdView) (filter : Option Text) (limit : ℕ)
    → query hot view filter limit
      ≡ some (if nat_beq limit 0 then ok [] else answer hot filter limit (cold_spans view filter))
unfolding query
query_lem hot view filter limit = elim (Bool-cases (nat_beq limit 0)) [
  | inl e ↦ rw e
  | inr e ↦ rw e (first_round hot filter limit view)
]
