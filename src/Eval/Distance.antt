-- ===== src/Eval/Distance.antt =====
-- The edit distance of src/eval.rs, on the `char`s of its arguments. A count of characters is far
-- below 2^64, so the sums are those of ℕ.
pub mod Least
pub mod Tests
use evald.Prelude.{ℕ, zero, suc, ◌+◌, min, Bool, List, [], ◌∷◌, length, nat_beq, if◌then◌else◌}

-- `(0..=b.len())`
unfoldable pub counts_from : ℕ → List ℕ → List ℕ
counts_from j [] = j ∷ []
counts_from j (y ∷ b) = j ∷ counts_from (j + 1) b

-- `cost`: whether the characters differ
unfoldable pub cost : ℕ → ℕ → ℕ
cost x y = if nat_beq x y then 0 else 1

-- The cells of `cur` behind the first: `diagonal` is `prev[j - 1]`, `left` is `cur[j - 1]`, and
-- the list before it holds `prev[j..]`.
unfoldable pub next_cells : ℕ → List ℕ → ℕ → List ℕ → ℕ → List ℕ
unfolding cost
next_cells x [] diagonal above left = []
next_cells x (y ∷ b) diagonal [] left = []
next_cells x (y ∷ b) diagonal (up ∷ above) left =
    let cell = min (min (up + 1) (left + 1)) (diagonal + cost x y) in
    cell ∷ next_cells x b up above cell

unfoldable pub next_row : ℕ → ℕ → List ℕ → List ℕ → List ℕ
unfolding next_cells
next_row i x b [] = []
next_row i x b (diagonal ∷ above) = i ∷ next_cells x b diagonal above i

unfoldable pub rows_loop : ℕ → List ℕ → List ℕ → List ℕ → List ℕ
unfolding next_row
rows_loop i [] b prev = prev
rows_loop i (x ∷ a) b prev = rows_loop (i + 1) a b (next_row i x b prev)

-- `prev[j]`
unfoldable pub cell_at : ℕ → List ℕ → ℕ
cell_at j [] = 0
cell_at zero (cell ∷ row) = cell
cell_at (suc j) (cell ∷ row) = cell_at j row

unfoldable pub levenshtein : List ℕ → List ℕ → ℕ
unfolding counts_from rows_loop cell_at
levenshtein a b = cell_at (length b) (rows_loop 1 a b (counts_from 0 b))
