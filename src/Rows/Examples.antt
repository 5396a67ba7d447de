-- ===== src/Rows/Examples.antt =====
-- Selections of the newest rows at concrete numbers, each its own start time.
use evald.Prelude.{ℕ, ◌≡◌, refl, [], ◌∷◌, take}
use evald.Rows.{top_new, top_push, top_into_vec, sort_newest}
use evald.Rows.Bounded.{push_all, top_into_vec-push_all}

abbrev self : ℕ → ℕ
self n = n

top-two : top_into_vec (push_all self (top_new 2) (3 ∷ 9 ∷ 4 ∷ 7 ∷ [])) ≡ 9 ∷ 7 ∷ []
unfolding top_into_vec top_new top_push
top-two = refl

top_into_vec-push_all_example :
    top_into_vec (push_all self (top_new 2) (3 ∷ 9 ∷ 4 ∷ 7 ∷ []))
    ≡ take 2 (sort_newest self (3 ∷ 9 ∷ 4 ∷ 7 ∷ []))
top_into_vec-push_all_example = top_into_vec-push_all self 2 (3 ∷ 9 ∷ 4 ∷ 7 ∷ [])
