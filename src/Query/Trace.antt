-- ===== src/Query/Trace.antt =====
-- The spans of one trace.
use evald.Prelude.{
  ℕ, ◌≤◌, ◌≡◌, refl, ap, ◌∙◌, ◌||◌, some, List, [], ◌∷◌, Text, All, contains, ltb, arith,
  Bool-cases, inl, inr,
}
use evald.Prelude.Io.{ok}
use evald.Model.{NormalizedSpan}
use evald.Key.{SpanKey, key_eq}
use evald.Hot.{HotTier, all_spans}
use evald.Query.{ColdView, insert_oldest, sort_oldest, map_rows, trace}
use evald.Query.Answer.{of_trace, cold_spans}
use evald.Query.Distinct.{identities, contains-query_all}

-- Each span starts no later than the next one.
abbrev pub IsAscending : List NormalizedSpan → Type 0
IsAscending [] = Unit
IsAscending (s ∷ rest) =
    All (λ (t : NormalizedSpan). s.start_unix_nano ≤ t.start_unix_nano) rest × IsAscending rest

contains-insert_oldest :
    (s : NormalizedSpan) (l : List NormalizedSpan) (k : SpanKey)
    → contains (identities (insert_oldest s l)) k ≡ contains (identities (s ∷ l)) k
contains-insert_oldest s [] k = refl
contains-insert_oldest s (t ∷ l) k = ground (arith, contains-insert_oldest s l k)

contains-sort_oldest :
    (sorted l : List NormalizedSpan) (k : SpanKey)
    → contains (identities (sort_oldest sorted l)) k
      ≡ (contains (identities sorted) k || contains (identities l) k)
contains-sort_oldest sorted [] k = ground arith
contains-sort_oldest sorted (s ∷ l) k =
    contains-sort_oldest (insert_oldest s sorted) l k
    ∙ ground (arith, contains-insert_oldest s sorted k)

abbrev From : ℕ → List NormalizedSpan → Type 0
From n = All (λ (t : NormalizedSpan). n ≤ t.start_unix_nano)

From-weaker : (m n : ℕ) (l : List NormalizedSpan) → m ≤ n → From n l → From m l
From-weaker m n [] h later = tt
From-weaker m n (t ∷ l) h later = (omega (arith, h, later.0), From-weaker m n l h later.1)

insert_oldest-From :
    (n : ℕ) (s : NormalizedSpan) (l : List NormalizedSpan)
    → n ≤ s.start_unix_nano
    → From n l
    → From n (insert_oldest s l)
insert_oldest-From n s [] h later = (h, tt)
insert_oldest-From n s (t ∷ l) h later =
    elim (Bool-cases (ltb s.start_unix_nano t.start_unix_nano)) [
      | inl e ↦ rw e (h, later)
      | inr e ↦ rw e (later.0, insert_oldest-From n s l h later.1)
    ]

insert_oldest-IsAscending :
    (s : NormalizedSpan) (l : List NormalizedSpan) → IsAscending l → IsAscending (insert_oldest s l)
insert_oldest-IsAscending s [] h = (tt, tt)
insert_oldest-IsAscending s (t ∷ l) h =
    elim (Bool-cases (ltb s.start_unix_nano t.start_unix_nano)) [
      | inl e ↦
          rw e (
            (ground arith, From-weaker s.start_unix_nano t.start_unix_nano l (ground arith) h.0),
            h,
          )
      | inr e ↦ rw e (
        insert_oldest-From t.start_unix_nano s l (ground arith) h.0,
        insert_oldest-IsAscending s l h.1,
      )
    ]

sort_oldest-IsAscending :
    (sorted l : List NormalizedSpan) → IsAscending sorted → IsAscending (sort_oldest sorted l)
sort_oldest-IsAscending sorted [] h = h
sort_oldest-IsAscending sorted (s ∷ l) h =
    sort_oldest-IsAscending (insert_oldest s sorted) l (insert_oldest-IsAscending s sorted h)

-- Looking up a trace whose blocks can be read returns its spans from the oldest start to the newest,
-- with exactly the identities that the resident spans and the listed blocks hold of the trace.
pub trace_lem :
    (hot : HotTier) (view : ℕ → ColdView) (trace_id : Text) (cold : List NormalizedSpan)
    → cold_spans view (some trace_id) ≡ ok cold
    → (rows : List NormalizedSpan) × (trace hot view trace_id ≡ some (ok rows))
      × IsAscending rows
      × ((k : SpanKey)
          → contains (identities rows) k ≡ (
              contains (identities (of_trace (some trace_id) (all_spans hot))) k
              || contains (identities (of_trace (some trace_id) cold)) k))
unfolding trace
trace_lem hot view trace_id cold h =
    let (rows, e, found) = contains-query_all hot view (some trace_id) cold h in
    (
      sort_oldest [] rows,
      ap (map_rows (sort_oldest [])) e,
      sort_oldest-IsAscending [] rows tt,
      λ k. contains-sort_oldest [] rows k ∙ found k,
    )
