-- ===== src/Query/Scan.antt =====
-- The selection loops and the scan of the listed blocks, against plain descriptions of them.
use evald.Prelude.{
  ℕ, ◌≡◌, refl, ap, ◌∙◌, sym, Bool, not, ◌&&◌, Option, List, [], ◌∷◌, ◌++◌, Text, keep, contains,
  nat_beq, inl, inr, if◌then◌else◌, arith,
}
use evald.Prelude.Io.{Result, ok, err, ◌>>=◌, Result-cases}
use evald.Prelude.Copies.{first_copies, seen_after}
use evald.Model.{NormalizedSpan}
use evald.Key.{SpanKey, span_key, key_eq}
use evald.Rows.{Rows}
use evald.Query.{
  ColdView, Selected, Attempt, complete, vanished, failed, trace_matches, is_not_found, push_rows,
  hot_step, select_hot, cold_step, select_cold, scan_blocks,
}

-- Reading every listed block, in order; the first error stops it.
unfoldable pub read_blocks : ColdView → List Text → Result (List NormalizedSpan)
read_blocks view [] = ok []
read_blocks view (rel ∷ rest) =
    let later = read_blocks view rest in
    do spans ← view.read_block rel; tail ← later; ok (spans ++ tail)

pub rows-select_hot :
    (filter : Option Text) (st : Selected) (spans : List NormalizedSpan)
    → (select_hot filter st spans).rows
      ≡ push_rows st.rows (first_copies span_key st.seen (keep (trace_matches filter) spans))
unfolding select_hot first_copies
rows-select_hot filter st [] = refl
rows-select_hot filter st (s ∷ rest) =
    rows-select_hot filter (hot_step filter st s) rest ∙ ground arith

pub seen-select_hot :
    (filter : Option Text) (st : Selected) (spans : List NormalizedSpan)
    → (select_hot filter st spans).seen
      ≡ seen_after span_key st.seen (keep (trace_matches filter) spans)
unfolding select_hot seen_after
seen-select_hot filter st [] = refl
seen-select_hot filter st (s ∷ rest) =
    seen-select_hot filter (hot_step filter st s) rest ∙ ground arith

-- Which cold spans an attempt considers.
abbrev pub candidate : Option Text → List SpanKey → NormalizedSpan → Bool
candidate filter hot_seen s = trace_matches filter s && not (contains hot_seen (span_key s))

pub rows-select_cold :
    (filter : Option Text) (hot_seen : List SpanKey) (st : Selected) (spans : List NormalizedSpan)
    → (select_cold filter hot_seen st spans).rows
      ≡ push_rows st.rows (first_copies span_key st.seen (keep (candidate filter hot_seen) spans))
unfolding select_cold first_copies
rows-select_cold filter hot_seen st [] = refl
rows-select_cold filter hot_seen st (s ∷ rest) =
    rows-select_cold filter hot_seen (cold_step filter hot_seen st s) rest ∙ ground arith

select_cold-append :
    (filter : Option Text) (hot_seen : List SpanKey) (st : Selected) (xs ys : List NormalizedSpan)
    → select_cold filter hot_seen st (xs ++ ys)
      ≡ select_cold filter hot_seen (select_cold filter hot_seen st xs) ys
unfolding select_cold
select_cold-append filter hot_seen st [] ys = refl
select_cold-append filter hot_seen st (x ∷ xs) ys =
    select_cold-append filter hot_seen (cold_step filter hot_seen st x) xs ys

-- How a scan ends, from what reading the blocks gives.
abbrev pub ending :
    Option Text → List SpanKey → ℕ → Selected → Result (List NormalizedSpan) → Attempt Rows
ending filter hot_seen attempts st (ok spans) = complete (select_cold filter hot_seen st spans).rows
ending filter hot_seen attempts st (err kind) =
    if is_not_found kind && nat_beq attempts 1 then vanished else failed kind

ending_later :
    (filter : Option Text) (hot_seen : List SpanKey) (attempts : ℕ) (st : Selected)
    (xs : List NormalizedSpan) (r : Result (List NormalizedSpan))
    → ending filter hot_seen attempts (select_cold filter hot_seen st xs) r
      ≡ ending filter hot_seen attempts st (r >>= λ tail. ok (xs ++ tail))
ending_later filter hot_seen attempts st xs (ok ys) =
    ap (λ (t : Selected). complete t.rows) (sym (select_cold-append filter hot_seen st xs ys))
ending_later filter hot_seen attempts st xs (err kind) = refl

pub scan_blocks-ending :
    (view : ColdView) (filter : Option Text) (hot_seen : List SpanKey) (attempts : ℕ)
    (st : Selected) (paths : List Text)
    → scan_blocks view filter hot_seen attempts st paths
      ≡ ending filter hot_seen attempts st (read_blocks view paths)
unfolding scan_blocks read_blocks
scan_blocks-ending view filter hot_seen attempts st [] = refl
scan_blocks-ending view filter hot_seen attempts st (rel ∷ rest) =
    elim (Result-cases (view.read_block rel)) [
      | inl (spans, e) ↦
          rw (e, scan_blocks)
            (scan_blocks-ending view filter hot_seen attempts (select_cold filter hot_seen st spans)
                rest
              ∙ ending_later filter hot_seen attempts st spans (read_blocks view rest))
      | inr (kind, e) ↦ rw (e, scan_blocks) refl
    ]
