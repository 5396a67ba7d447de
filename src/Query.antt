-- ===== src/Query.antt =====
-- `Store::query`, `trace`, `span_count` and `hot_spans` of src/store/mod.rs. The cold tier is read
-- while merges change it, so each attempt has its own view of the index and the files.
pub mod Select
pub mod Scan
pub mod Answer
pub mod Distinct
pub mod Trace
pub mod Examples
use evald.Prelude.{
  ℕ, zero, suc, Bool, true, false, not, ◌&&◌, Option, none, some, List, [], ◌∷◌, ◌++◌, Text, length,
  contains, insert, text_beq, nat_beq, if◌then◌else◌, ltb, length,
}
use evald.Prelude.Io.{ErrorKind, not_found, invalid_data, other_error, Result, ok, err}
use evald.Prelude.Copies.{first_copies}
use evald.Model.{NormalizedSpan}
use evald.Key.{SpanKey, span_key, key_eq}
use evald.Rows.{
  Rows, top, all_rows, TopN, rows_new, top_push, top_into_vec, sort_newest, insert_newest,
  usize_max,
}
use evald.Hot.{HotTier, all_spans}

abbrev pub start_of : NormalizedSpan → ℕ
start_of s = s.start_unix_nano

-- `Rows::push` and `Rows::into_vec`
pub rows_push : Rows → NormalizedSpan → Rows
rows_push (top t) s = top (top_push t (start_of s) s)
rows_push (all_rows all) s = all_rows (all ++ s ∷ [])

pub rows_into_vec : Rows → List NormalizedSpan
rows_into_vec (top t) = top_into_vec t
rows_into_vec (all_rows all) = sort_newest start_of all

abbrev pub push_rows : Rows → List NormalizedSpan → Rows
push_rows rows [] = rows
push_rows rows (s ∷ rest) = push_rows (rows_push rows s) rest

abbrev pub trace_matches : Option Text → NormalizedSpan → Bool
trace_matches none s = true
trace_matches (some t) s = text_beq s.trace_id t

-- What one attempt sees of the cold tier: the index's listings and the block files.
pub record ColdView : Type 0 where
  pub block_paths_for_trace : Text → Result (List Text)
  pub all_block_paths : Result (List Text)
  pub read_block : Text → Result (List NormalizedSpan)

pub record Selected : Type 0 where
  pub seen : List SpanKey
  pub rows : Rows

-- One resident span: `seen.insert` is reached only if the trace matches.
hot_step : Option Text → Selected → NormalizedSpan → Selected
unfolding rows_push
hot_step filter st s =
    let matches = trace_matches filter s in
    let fresh = not (contains st.seen (span_key s)) in
    record {
      seen = if matches then insert (span_key s) st.seen else st.seen;
      rows = if matches && fresh then rows_push st.rows s else st.rows;
    }

-- The loop over the resident spans. The bounded arm selects borrowed spans and clones the
-- survivors, which changes none of them.
pub select_hot : Option Text → Selected → List NormalizedSpan → Selected
unfolding hot_step
select_hot filter st [] = st
select_hot filter st (s ∷ rest) = select_hot filter (hot_step filter st s) rest

-- One span of a cold block: a key of the hot tier is passed over before `cold_seen.insert`.
cold_step : Option Text → List SpanKey → Selected → NormalizedSpan → Selected
unfolding rows_push
cold_step filter hot_seen st s =
    let candidate = trace_matches filter s && not (contains hot_seen (span_key s)) in
    let fresh = not (contains st.seen (span_key s)) in
    record {
      seen = if candidate then insert (span_key s) st.seen else st.seen;
      rows = if candidate && fresh then rows_push st.rows s else st.rows;
    }

-- The loop over the spans of one block.
pub select_cold : Option Text → List SpanKey → Selected → List NormalizedSpan → Selected
unfolding cold_step
select_cold filter hot_seen st [] = st
select_cold filter hot_seen st (s ∷ rest) =
    select_cold filter hot_seen (cold_step filter hot_seen st s) rest

pub data Attempt {ℓ} (A : Type ℓ) : Type ℓ where
  complete : A → Attempt A
  vanished : Attempt A
  failed : ErrorKind → Attempt A

abbrev pub is_not_found : ErrorKind → Bool
is_not_found not_found = true
is_not_found invalid_data = false
is_not_found other_error = false

-- The loop over the listed blocks. A block that is gone on the first attempt ends it.
pub scan_blocks : ColdView → Option Text → List SpanKey → ℕ → Selected → List Text → Attempt Rows
unfolding select_cold
scan_blocks view filter hot_seen attempts st [] = complete st.rows
scan_blocks view filter hot_seen attempts st (rel ∷ rest) = elim (view.read_block rel) [
  | ok spans ↦ scan_blocks view filter hot_seen attempts (select_cold filter hot_seen st spans) rest
  | err kind ↦ if is_not_found kind && nat_beq attempts 1 then vanished else failed kind
]

abbrev pub list_blocks : ColdView → Option Text → Result (List Text)
list_blocks view (some t) = view.block_paths_for_trace t
list_blocks view none = view.all_block_paths

-- The `loop`, on fuel; `view n` is what attempt `n` sees. `none` means that the fuel ran out.
pub query_loop :
    ℕ
    → (ℕ → ColdView)
    → Option Text
    → ℕ
    → List SpanKey
    → Rows
    → ℕ
    → Option (Result (List NormalizedSpan))
unfolding scan_blocks rows_into_vec
query_loop zero view filter limit hot_seen rows attempts = none
query_loop (suc fuel) view filter limit hot_seen rows attempts =
    elim (list_blocks (view attempts) filter) [
      | err kind ↦ some (err kind)
      | ok paths ↦
          elim (scan_blocks (view attempts) filter hot_seen attempts
            (record { seen = []; rows = rows_new limit }) paths) [
              | complete cold ↦ some (ok (rows_into_vec (push_rows rows (rows_into_vec cold))))
              | vanished ↦ query_loop fuel view filter limit hot_seen rows (suc attempts)
              | failed kind ↦ some (err kind)
            ]
    ]

pub query : HotTier → (ℕ → ColdView) → Option Text → ℕ → Option (Result (List NormalizedSpan))
unfolding query_loop select_hot
query hot view filter limit =
    if nat_beq limit 0
    then some (ok [])
    else let hot_rows =
        select_hot filter (record { seen = []; rows = rows_new limit }) (all_spans hot) in
      query_loop 2 view filter limit hot_rows.seen hot_rows.rows 1

-- `Store::hot_spans`
pub hot_spans : HotTier → List NormalizedSpan
hot_spans hot = first_copies span_key [] (all_spans hot)

-- `sort_by_key(|s| s.start_unix_nano)`, which is stable.
abbrev pub insert_oldest : NormalizedSpan → List NormalizedSpan → List NormalizedSpan
insert_oldest s [] = s ∷ []
insert_oldest s (t ∷ rest) =
    if ltb s.start_unix_nano t.start_unix_nano then s ∷ t ∷ rest else t ∷ insert_oldest s rest

abbrev pub sort_oldest : List NormalizedSpan → List NormalizedSpan → List NormalizedSpan
sort_oldest sorted [] = sorted
sort_oldest sorted (s ∷ rest) = sort_oldest (insert_oldest s sorted) rest

abbrev pub map_rows {ℓ} :
    {A : Type ℓ}
    → (List NormalizedSpan → A)
    → Option (Result (List NormalizedSpan))
    → Option (Result A)
map_rows f none = none
map_rows f (some (err kind)) = some (err kind)
map_rows f (some (ok rows)) = some (ok (f rows))

-- `Store::trace`
unfoldable pub trace : HotTier → (ℕ → ColdView) → Text → Option (Result (List NormalizedSpan))
unfolding query
trace hot view trace_id = map_rows (sort_oldest []) (query hot view (some trace_id) usize_max)

-- `Store::span_count`
unfoldable pub span_count : HotTier → (ℕ → ColdView) → Option (Result ℕ)
unfolding query
span_count hot view = map_rows length (query hot view none usize_max)
