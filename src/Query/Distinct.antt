-- ===== src/Query/Distinct.antt =====
-- The identities that a query returns.
use evald.Prelude.{
  ℕ, zero, suc, ◌≡◌, refl, ◌∙◌, Bool, true, false, not, ◌&&◌, ◌||◌, Option, some, List, [], ◌∷◌,
  ◌++◌, map, take, Text, keep, contains, IsDistinct, nat_beq, Bool-cases, inl, inr, if◌then◌else◌,
  arith,
}
use mathlib.Core.Path.{subst}
use evald.Prelude.Io.{Result, ok, err}
use evald.Prelude.Copies.{contains-first_copies, first_copies-IsDistinct}
use evald.Model.{NormalizedSpan}
use evald.Key.{SpanKey, span_key, key_eq}
use evald.Rows.{insert_newest, sort_onto, sort_newest, usize_max}
use evald.Hot.{HotTier, all_spans}
use evald.Query.{ColdView, start_of, query}
use evald.Query.Select.{newest_rows}
use evald.Query.Scan.{candidate}
use evald.Query.Answer.{of_trace, visible_hot, visible_cold, visible, answer, cold_spans, query_lem}

abbrev pub identities : List NormalizedSpan → List SpanKey
identities = map span_key

contains-insert_newest :
    (x : NormalizedSpan) (l : List NormalizedSpan) (k : SpanKey)
    → contains (identities (insert_newest start_of x l)) k ≡ contains (identities (x ∷ l)) k
contains-insert_newest x [] k = refl
contains-insert_newest x (y ∷ l) k = ground (arith, contains-insert_newest x l k)

contains-sort_onto :
    (s l : List NormalizedSpan) (k : SpanKey)
    → contains (identities (sort_onto start_of s l)) k
      ≡ (contains (identities l) k || contains (identities s) k)
contains-sort_onto s [] k = refl
contains-sort_onto s (x ∷ l) k =
    ground
      (arith, contains-sort_onto (insert_newest start_of x s) l k, contains-insert_newest x s k)

pub contains-identities-append :
    (xs ys : List NormalizedSpan) (k : SpanKey)
    → contains (identities (xs ++ ys)) k
      ≡ (contains (identities xs) k || contains (identities ys) k)
contains-identities-append [] ys k = refl
contains-identities-append (x ∷ xs) ys k = ground (arith, contains-identities-append xs ys k)

insert_newest-IsDistinct :
    (x : NormalizedSpan) (l : List NormalizedSpan)
    → IsDistinct (identities (x ∷ l))
    → IsDistinct (identities (insert_newest start_of x l))
insert_newest-IsDistinct x [] h = h
insert_newest-IsDistinct x (y ∷ l) h = ground (
  arith,
  insert_newest-IsDistinct x l,
  contains-insert_newest x l (span_key y),
  key_eq.beq_iff (span_key x) (span_key y),
  key_eq.beq_iff (span_key y) (span_key x),
)

sort_onto-IsDistinct :
    (s l : List NormalizedSpan)
    → IsDistinct (identities l)
    → IsDistinct (identities s)
    → ((k : SpanKey) → contains (identities l) k ≡ true → contains (identities s) k ≡ false)
    → IsDistinct (identities (sort_onto start_of s l))
sort_onto-IsDistinct s [] dl ds apart = ds
sort_onto-IsDistinct s (x ∷ l) dl ds apart =
    sort_onto-IsDistinct (insert_newest start_of x s) l dl.1
      (insert_newest-IsDistinct x s
        (apart (span_key x) (ground (arith, key_eq.beq_iff (span_key x) (span_key x))), ds))
      (λ k m. ground (arith, contains-insert_newest x s k, apart k, key_eq.beq_iff (span_key x) k))

contains-take :
    (n : ℕ) (l : List NormalizedSpan) (k : SpanKey)
    → contains (identities l) k ≡ false
    → contains (identities (take n l)) k ≡ false
contains-take zero l k h = refl
contains-take (suc n) [] k h = refl
contains-take (suc n) (x ∷ l) k h = ground (arith, contains-take n l k)

take-IsDistinct :
    (n : ℕ) (l : List NormalizedSpan)
    → IsDistinct (identities l)
    → IsDistinct (identities (take n l))
take-IsDistinct zero l h = tt
take-IsDistinct (suc n) [] h = tt
take-IsDistinct (suc n) (x ∷ l) h = (contains-take n l (span_key x) h.0, take-IsDistinct n l h.1)

newest_rows-IsDistinct :
    (limit : ℕ) (l : List NormalizedSpan)
    → IsDistinct (identities l)
    → IsDistinct (identities (newest_rows limit l))
unfolding newest_rows sort_newest
newest_rows-IsDistinct limit l h = elim (Bool-cases (nat_beq limit usize_max)) [
  | inl e ↦ rw e (sort_onto-IsDistinct [] l h tt (λ k m. refl))
  | inr e ↦ rw e (take-IsDistinct limit _ (sort_onto-IsDistinct [] l h tt (λ k m. refl)))
]

append-IsDistinct :
    (xs ys : List NormalizedSpan)
    → IsDistinct (identities xs)
    → IsDistinct (identities ys)
    → ((k : SpanKey) → contains (identities xs) k ≡ true → contains (identities ys) k ≡ false)
    → IsDistinct (identities (xs ++ ys))
append-IsDistinct [] ys dx dy apart = dy
append-IsDistinct (x ∷ xs) ys dx dy apart = (
  ground (
    arith,
    contains-identities-append xs ys (span_key x),
    apart (span_key x),
    key_eq.beq_iff (span_key x) (span_key x),
  ),
  append-IsDistinct xs ys dx.1 dy (λ k m. apart k (ground arith)),
)

module _ (filter : Option Text) (hot : HotTier) (cold : List NormalizedSpan) where
  -- The cold candidates are those whose identity is not resident.
  contains-candidates :
      (resident : List SpanKey) (l : List NormalizedSpan) (k : SpanKey)
      → contains (identities (keep (candidate filter resident) l)) k
        ≡ (not (contains resident k) && contains (identities (of_trace filter l)) k)
  contains-candidates resident [] k = ground arith
  contains-candidates resident (s ∷ l) k =
      ground (arith, contains-candidates resident l k, key_eq.beq_iff (span_key s) k)

  contains-visible_hot :
      (k : SpanKey)
      → contains (identities (visible_hot filter hot)) k
        ≡ contains (identities (of_trace filter (all_spans hot))) k
  unfolding visible_hot
  contains-visible_hot k =
      ground (arith, contains-first_copies span_key [] (of_trace filter (all_spans hot)) k)

  contains-visible_cold :
      (k : SpanKey)
      → contains (identities (visible_cold filter hot cold)) k ≡ (
          not (contains (identities (of_trace filter (all_spans hot))) k)
          && contains (identities (of_trace filter cold)) k)
  unfolding visible_cold
  contains-visible_cold k =
      let resident = map span_key (of_trace filter (all_spans hot)) in
      ground (
        arith,
        contains-first_copies span_key [] (keep (candidate filter resident) cold) k,
        contains-candidates resident cold k,
      )

  pub visible-IsDistinct : IsDistinct (identities (visible filter hot cold))
  unfolding visible
  visible-IsDistinct =
      append-IsDistinct (visible_hot filter hot) (visible_cold filter hot cold)
        (unfold visible_hot in first_copies-IsDistinct span_key [] _)
        (unfold visible_cold in first_copies-IsDistinct span_key [] _)
        (λ k m. ground (arith, contains-visible_hot k, contains-visible_cold k))

  pub contains-visible :
      (k : SpanKey)
      → contains (identities (visible filter hot cold)) k ≡ (
          contains (identities (of_trace filter (all_spans hot))) k
          || contains (identities (of_trace filter cold)) k)
  unfolding visible
  contains-visible k = ground (
    arith,
    contains-identities-append (visible_hot filter hot) (visible_cold filter hot cold) k,
    contains-visible_hot k,
    contains-visible_cold k,
  )

-- The rows of a query whose cold read succeeded.
rows_of_query :
    (hot : HotTier) (view : ℕ → ColdView) (filter : Option Text) (limit : ℕ)
    (cold : List NormalizedSpan)
    → cold_spans view filter ≡ ok cold
    → query hot view filter limit
      ≡ some (ok (if nat_beq limit 0 then [] else newest_rows limit (visible filter hot cold)))
rows_of_query hot view filter limit cold h = query_lem hot view filter limit ∙ ground arith

ok_rows-IsDistinct :
    (hot : HotTier) (filter : Option Text) (limit : ℕ) (rows : List NormalizedSpan)
    (r : Result (List NormalizedSpan)) (b : Bool)
    → (if b then ok [] else answer hot filter limit r) ≡ ok rows
    → IsDistinct (identities rows)
ok_rows-IsDistinct hot filter limit rows r true h =
    subst (λ (l : List NormalizedSpan). IsDistinct (identities l)) {x = []} (cc h) tt
ok_rows-IsDistinct hot filter limit rows (ok cold) false h =
    subst (λ (l : List NormalizedSpan). IsDistinct (identities l))
      {x = newest_rows limit (visible filter hot cold)} (cc h)
      (newest_rows-IsDistinct limit _ (visible-IsDistinct filter hot cold))
ok_rows-IsDistinct hot filter limit rows (err kind) false h = cc h

-- Whatever a query returns holds no identity twice, for every limit, filter and view of the cold
-- tier.
pub query-IsDistinct :
    (hot : HotTier) (view : ℕ → ColdView) (filter : Option Text) (limit : ℕ)
    (rows : List NormalizedSpan)
    → query hot view filter limit ≡ some (ok rows)
    → IsDistinct (identities rows)
query-IsDistinct hot view filter limit rows h =
    ok_rows-IsDistinct hot filter limit rows (cold_spans view filter) (nat_beq limit 0)
      (cc (query_lem hot view filter limit, h))

contains-newest_rows_all :
    (l : List NormalizedSpan) (k : SpanKey)
    → contains (identities (newest_rows usize_max l)) k ≡ contains (identities l) k
unfolding newest_rows sort_newest
contains-newest_rows_all l k = ground (arith, contains-sort_onto [] l k)

-- An unbounded query (`trace`, `span_count`) whose cold reads succeed returns exactly the
-- identities of the matching resident spans and of the matching spans in the blocks.
pub contains-query_all :
    (hot : HotTier) (view : ℕ → ColdView) (filter : Option Text) (cold : List NormalizedSpan)
    → cold_spans view filter ≡ ok cold
    → (rows : List NormalizedSpan) × (query hot view filter usize_max ≡ some (ok rows))
      × ((k : SpanKey)
          → contains (identities rows) k ≡ (
              contains (identities (of_trace filter (all_spans hot))) k
              || contains (identities (of_trace filter cold)) k))
contains-query_all hot view filter cold h = (
  newest_rows usize_max (visible filter hot cold),
  rows_of_query hot view filter usize_max cold h,
  λ k. contains-newest_rows_all (visible filter hot cold) k ∙ contains-visible filter hot cold k,
)
