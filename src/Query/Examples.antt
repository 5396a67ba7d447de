-- ===== src/Query/Examples.antt =====
-- A query over two hot segments and two blocks, one of which is merged away in the first attempt.
use evald.Prelude.{
  ℕ, ◌≡◌, refl, ◌||◌, none, some, List, [], ◌∷◌, bytes, contains, IsDistinct, text_beq, nat_beq,
  if◌then◌else◌,
}
use evald.Prelude.Io.{not_found, ok, err}
use evald.Model.{NormalizedSpan}
use evald.Model.Examples.{test_span}
use evald.Key.{SpanKey, span_key, key_of, key_eq, decode_hex}
use evald.Rows.{usize_max, rows_new, top_new, top_push, top_into_vec}
use evald.Hot.{all_spans}
use evald.Hot.Examples.{two_segments}
use evald.Query.{
  trace, ColdView, query, query_loop, select_hot, hot_step, select_cold, cold_step, scan_blocks,
  rows_push, rows_into_vec,
}
use evald.Query.Answer.{of_trace, answer, cold_spans, read_listed, query_lem}
use evald.Query.Scan.{read_blocks}
use evald.Query.Trace.{IsAscending, trace_lem}
use evald.Query.Distinct.{identities, query-IsDistinct, contains-query_all}

abbrev flushed : List NormalizedSpan
flushed = test_span (bytes "t1") (bytes "s1") 10 ∷ test_span (bytes "t1") (bytes "s5") 40 ∷ []

abbrev before_merge : ColdView
before_merge = record {
  block_paths_for_trace = λ t. ok (bytes "a" ∷ []);
  all_block_paths = ok (bytes "a" ∷ []);
  read_block = λ rel. err not_found;
}

abbrev after_merge : ColdView
after_merge = record {
  block_paths_for_trace = λ t. ok (bytes "b" ∷ []);
  all_block_paths = ok (bytes "b" ∷ []);
  read_block = λ rel. if text_beq rel (bytes "b") then ok flushed else err not_found;
}

abbrev views : ℕ → ColdView
views n = if nat_beq n 1 then before_merge else after_merge

abbrev newest_two : List NormalizedSpan
newest_two = test_span (bytes "t1") (bytes "s5") 40 ∷ test_span (bytes "t2") (bytes "s2") 30 ∷ []

reads_flushed : cold_spans views none ≡ ok flushed
unfolding cold_spans read_listed read_blocks
reads_flushed = refl

query_two : query two_segments views none 2 ≡ some (ok newest_two)
unfolding query query_loop select_hot hot_step select_cold cold_step scan_blocks rows_push
    rows_into_vec all_spans rows_new top_new top_push top_into_vec span_key key_of decode_hex
query_two = refl

query_lem_example :
    query two_segments views (some (bytes "t1")) 2
    ≡ some (
        if nat_beq 2 0
        then ok []
        else answer two_segments (some (bytes "t1")) 2 (cold_spans views (some (bytes "t1"))))
query_lem_example = query_lem two_segments views (some (bytes "t1")) 2

query-IsDistinct_example : IsDistinct (identities newest_two)
query-IsDistinct_example = query-IsDistinct two_segments views none 2 newest_two query_two

contains-query_all_example :
    (rows : List NormalizedSpan) × (query two_segments views none usize_max ≡ some (ok rows))
    × ((k : SpanKey)
        → contains (identities rows) k ≡ (
            contains (identities (of_trace none (all_spans two_segments))) k
            || contains (identities (of_trace none flushed)) k))
contains-query_all_example = contains-query_all two_segments views none flushed reads_flushed

reads_trace : cold_spans views (some (bytes "t1")) ≡ ok flushed
unfolding cold_spans read_listed read_blocks
reads_trace = refl

trace_lem_example :
    (rows : List NormalizedSpan) × (trace two_segments views (bytes "t1") ≡ some (ok rows))
    × IsAscending rows
    × ((k : SpanKey)
        → contains (identities rows) k ≡ (
            contains (identities (of_trace (some (bytes "t1")) (all_spans two_segments))) k
            || contains (identities (of_trace (some (bytes "t1")) flushed)) k))
trace_lem_example = trace_lem two_segments views (bytes "t1") flushed reads_trace
