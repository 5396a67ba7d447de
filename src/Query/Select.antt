-- ===== src/Query/Select.antt =====
-- The two arms of `Rows` give the same rows, and rows that are selected apart from their own best
-- ones are the rows selected from everything.
use evald.Prelude.{
  ℕ, ◌≡◌, refl, ap, ◌∙◌, sym, List, [], ◌∷◌, ◌++◌, take, nat_beq, Bool-cases, inl, inr,
  if◌then◌else◌,
}
use mathlib.Core.List.{append-nil, append_assoc}
use evald.Model.{NormalizedSpan}
use evald.Rows.{
  Rows, top, all_rows, TopN, rows_new, top_new, top_push, sort_onto, sort_newest, usize_max,
}
use evald.Rows.Order.{sort_newest-IsSorted, sort_onto-sort_onto, sort_onto-append}
use evald.Rows.Cut.{take-sort_onto-take}
use evald.Rows.Bounded.{push_all, top_into_vec-push_all}
use evald.Query.{start_of, rows_push, rows_into_vec, push_rows}

-- The first `limit` of the candidates, newest first and ties in order of arrival; all of them
-- when the caller asks for `usize::MAX`.
unfoldable pub newest_rows : ℕ → List NormalizedSpan → List NormalizedSpan
newest_rows limit candidates =
    let sorted = sort_newest start_of candidates in
    if nat_beq limit usize_max then sorted else take limit sorted

push_rows-top :
    (t : TopN NormalizedSpan) (xs : List NormalizedSpan)
    → push_rows (top t) xs ≡ top (push_all start_of t xs)
unfolding rows_push
push_rows-top t [] = refl
push_rows-top t (x ∷ xs) = push_rows-top (top_push t (start_of x) x) xs

push_rows-all_rows :
    (held xs : List NormalizedSpan) → push_rows (all_rows held) xs ≡ all_rows (held ++ xs)
unfolding rows_push
push_rows-all_rows held [] = ap all_rows (sym (append-nil held))
push_rows-all_rows held (x ∷ xs) =
    push_rows-all_rows (held ++ x ∷ []) xs ∙ ap all_rows (append_assoc held (x ∷ []) xs)

-- Collecting rows and reading them back, on either arm.
pub into_vec-push_rows :
    (limit : ℕ) (xs : List NormalizedSpan)
    → rows_into_vec (push_rows (rows_new limit) xs) ≡ newest_rows limit xs
unfolding rows_new newest_rows rows_into_vec
into_vec-push_rows limit xs = elim (Bool-cases (nat_beq limit usize_max)) [
  | inl all ↦ rw (all, push_rows-all_rows [] xs)
  | inr bounded ↦
      rw (bounded, push_rows-top (top_new limit) xs) (top_into_vec-push_all start_of limit xs)
]

pub push_rows-append :
    (rows : Rows) (xs ys : List NormalizedSpan)
    → push_rows (push_rows rows xs) ys ≡ push_rows rows (xs ++ ys)
push_rows-append rows [] ys = refl
push_rows-append rows (x ∷ xs) ys = push_rows-append (rows_push rows x) xs ys

-- The cold tier is selected on its own first; no row is lost by that.
pub newest_rows-newest_rows :
    (limit : ℕ) (hot cold : List NormalizedSpan)
    → newest_rows limit (hot ++ newest_rows limit cold) ≡ newest_rows limit (hot ++ cold)
unfolding newest_rows sort_newest
newest_rows-newest_rows limit hot cold = elim (Bool-cases (nat_beq limit usize_max)) [
  | inl all ↦ rw all (merged (sort_newest start_of cold) ∙ whole)
  | inr bounded ↦ rw bounded (
      ap (take limit) (merged (take limit (sort_newest start_of cold)))
      ∙ take-sort_onto-take start_of limit (sort_newest start_of hot) (sort_newest start_of cold)
          (sort_newest-IsSorted start_of hot) (sort_newest-IsSorted start_of cold)
      ∙ ap (take limit) whole)
]
  where
    merged :
        (ys : List NormalizedSpan)
        → sort_onto start_of [] (hot ++ ys) ≡ sort_onto start_of (sort_newest start_of hot) ys
    merged ys = sort_onto-append start_of [] hot ys

    whole :
        sort_onto start_of (sort_newest start_of hot) (sort_newest start_of cold)
        ≡ sort_onto start_of [] (hot ++ cold)
    whole = sort_onto-sort_onto start_of (sort_newest start_of hot) [] cold tt ∙ sym (merged cold)
