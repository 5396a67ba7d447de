-- ===== src/Eval/Distance/Least.antt =====
-- The two-row table computes the least number of edits.
use mathlib.Core.List.{append-nil}
use mathlib.Core.Path.{subst}
use evald.Prelude.{
  ℕ, suc, ◌+◌, min, ◌≤◌, ◌≡◌, refl, sym, ap, ◌∙◌, List, [], ◌∷◌, ◌++◌, length, ◌⊎◌, leb, ◌&&◌,
  Bool-cases, inl, inr, arith,
}
use evald.Eval.Distance.{counts_from, cost, next_cells, next_row, rows_loop, cell_at, levenshtein}

-- One text is turned into the other by `n` edits: a character dropped, added or replaced.
pub data Edits : List ℕ → List ℕ → ℕ → Type 0 where
  none_left : Edits [] [] 0
  drop : (x : ℕ) (a b : List ℕ) (n : ℕ) → Edits a b n → Edits (x ∷ a) b (n + 1)
  add : (y : ℕ) (a b : List ℕ) (n : ℕ) → Edits a b n → Edits a (y ∷ b) (n + 1)
  match : (x y : ℕ) (a b : List ℕ) (n : ℕ) → Edits a b n → Edits (x ∷ a) (y ∷ b) (n + cost x y)

least_cell : ℕ → ℕ → ℕ → ℕ → ℕ → ℕ
least_cell x y up left diagonal = min (min (up + 1) (left + 1)) (diagonal + cost x y)

-- The distance by recursion, for texts that are read from their ends.
abbrev distance_row : ℕ → List ℕ → (List ℕ → ℕ) → List ℕ → ℕ
distance_row x a above [] = suc (length a)
distance_row x a above (y ∷ b) = least_cell x y (above (y ∷ b)) (distance_row x a above b) (above b)

distance : List ℕ → List ℕ → ℕ
distance [] b = length b
distance (x ∷ a) b = distance_row x a (distance a) b

-- The cells of a row behind the first, for the rest of the second text.
abbrev cells : List ℕ → List ℕ → List ℕ → List ℕ
cells a passed [] = []
cells a passed (y ∷ b) = distance a (y ∷ passed) ∷ cells a (y ∷ passed) b

abbrev reversed_onto : List ℕ → List ℕ → List ℕ
reversed_onto [] onto = onto
reversed_onto (x ∷ a) onto = reversed_onto a (x ∷ onto)

next_cells-cells :
    (x : ℕ) (a passed b : List ℕ)
    → next_cells x b (distance a passed) (cells a passed b) (distance (x ∷ a) passed)
      ≡ cells (x ∷ a) passed b
unfolding next_cells distance least_cell
next_cells-cells x a passed [] = refl
next_cells-cells x a passed (y ∷ b) =
    ap (λ (row : List ℕ). distance (x ∷ a) (y ∷ passed) ∷ row) (next_cells-cells x a (y ∷ passed) b)

distance_all : (x : ℕ) (a : List ℕ) → distance (x ∷ a) [] ≡ suc (length a)
unfolding distance
distance_all x a = refl

counts_from-cells :
    (j : ℕ) (passed b : List ℕ)
    → j ≡ length passed
    → counts_from j b ≡ distance [] passed ∷ cells [] passed b
unfolding counts_from distance
counts_from-cells j passed [] e = ap (λ (n : ℕ). n ∷ []) e
counts_from-cells j passed (y ∷ b) e =
    rw (counts_from-cells (j + 1) (y ∷ passed) b (omega arith), e) refl

rows_loop-cells :
    (i : ℕ) (a seen b : List ℕ)
    → i ≡ suc (length seen)
    → rows_loop i a b (distance seen [] ∷ cells seen [] b)
      ≡ distance (reversed_onto a seen) [] ∷ cells (reversed_onto a seen) [] b
unfolding rows_loop next_row
rows_loop-cells i [] seen b e = refl
rows_loop-cells i (x ∷ a) seen b e =
    let head : i ≡ distance (x ∷ seen) [] = e ∙ sym (distance_all x seen) in
    rw (head, next_cells-cells x seen [] b)
      (rows_loop-cells (distance (x ∷ seen) [] + 1) a (x ∷ seen) b (omega (arith, head, e)))

cell_at-cells :
    (a passed b : List ℕ)
    → cell_at (length b) (distance a passed ∷ cells a passed b)
      ≡ distance a (reversed_onto b passed)
unfolding cell_at
cell_at-cells a passed [] = refl
cell_at-cells a passed (y ∷ b) = cell_at-cells a (y ∷ passed) b

levenshtein-distance :
    (a b : List ℕ) → levenshtein a b ≡ distance (reversed_onto a []) (reversed_onto b [])
unfolding levenshtein
levenshtein-distance a b =
    rw (counts_from-cells 0 [] b refl, rows_loop-cells 1 a [] b refl)
      (cell_at-cells (reversed_onto a []) [] b)

distance_drop : (x : ℕ) (a b : List ℕ) → distance (x ∷ a) b ≤ distance a b + 1
unfolding distance least_cell
distance_drop x [] [] = omega arith
distance_drop x (z ∷ a) [] = omega arith
distance_drop x a (y ∷ b) = omega arith

distance_add : (y : ℕ) (a b : List ℕ) → distance a (y ∷ b) ≤ distance a b + 1
unfolding distance least_cell
distance_add y [] b = omega arith
distance_add y (x ∷ a) b = omega arith

distance_match : (x y : ℕ) (a b : List ℕ) → distance (x ∷ a) (y ∷ b) ≤ distance a b + cost x y
unfolding distance least_cell
distance_match x y a b = omega arith

distance-le-Edits : (a b : List ℕ) (n : ℕ) → Edits a b n → distance a b ≤ n
unfolding distance
distance-le-Edits _ _ _ none_left = omega arith
distance-le-Edits _ _ _ (drop x a b n e) =
    omega (arith, distance-le-Edits a b n e, distance_drop x a b)
distance-le-Edits _ _ _ (add y a b n e) =
    omega (arith, distance-le-Edits a b n e, distance_add y a b)
distance-le-Edits _ _ _ (match x y a b n e) =
    omega (arith, distance-le-Edits a b n e, distance_match x y a b)

least_cell_lem :
    (x y up left diagonal : ℕ)
    → (least_cell x y up left diagonal ≡ up + 1)
      ⊎ ((least_cell x y up left diagonal ≡ left + 1)
          ⊎ (least_cell x y up left diagonal ≡ diagonal + cost x y))
unfolding least_cell
least_cell_lem x y up left diagonal =
    elim (Bool-cases (leb (up + 1) (left + 1) && leb (up + 1) (diagonal + cost x y))) [
      | inl first ↦ inl (ground arith)
      | inr later ↦ elim (Bool-cases (leb (left + 1) (diagonal + cost x y))) [
        | inl second ↦ inr (inl (ground arith))
        | inr third ↦ inr (inr (ground arith))
      ]
    ]

-- Edits are counted by whatever number equals theirs.
Edits_as : (a b : List ℕ) {n m : ℕ} → m ≡ n → Edits a b n → Edits a b m
Edits_as a b e edits = subst (λ (k : ℕ). Edits a b k) (sym e) edits

distance-nil : (a : List ℕ) → distance a [] ≡ length a
unfolding distance
distance-nil [] = refl
distance-nil (x ∷ a) = refl

distance-Edits : (a b : List ℕ) → Edits a b (distance a b)
unfolding distance
distance-Edits [] [] = none_left
distance-Edits [] (y ∷ b) =
    Edits_as [] (y ∷ b) (omega arith) (add y [] b (length b) (distance-Edits [] b))
distance-Edits (x ∷ a) [] =
    Edits_as (x ∷ a) [] (omega (arith, distance-nil a))
      (drop x a [] (distance a []) (distance-Edits a []))
distance-Edits (x ∷ a) (y ∷ b) =
    elim (least_cell_lem x y (distance a (y ∷ b)) (distance (x ∷ a) b) (distance a b)) [
      | inl e ↦
          Edits_as (x ∷ a) (y ∷ b) e
            (drop x a (y ∷ b) (distance a (y ∷ b)) (distance-Edits a (y ∷ b)))
      | inr other ↦ elim other [
        | inl e ↦
            Edits_as (x ∷ a) (y ∷ b) e
              (add y (x ∷ a) b (distance (x ∷ a) b) (distance-Edits (x ∷ a) b))
        | inr e ↦ Edits_as (x ∷ a) (y ∷ b) e (match x y a b (distance a b) (distance-Edits a b))
      ]
    ]

-- Edits of two texts are edits of the texts read backwards.
Edits-reversed_onto :
    (a b : List ℕ) (n : ℕ) (c d : List ℕ) (m : ℕ)
    → Edits a b n
    → Edits c d m
    → Edits (reversed_onto a c) (reversed_onto b d) (n + m)
Edits-reversed_onto _ _ _ c d m none_left f = Edits_as c d (omega arith) f
Edits-reversed_onto _ _ _ c d m (drop x a b n e) f =
    Edits_as (reversed_onto a (x ∷ c)) (reversed_onto b d) (omega arith)
      (Edits-reversed_onto a b n (x ∷ c) d (m + 1) e (drop x c d m f))
Edits-reversed_onto _ _ _ c d m (add y a b n e) f =
    Edits_as (reversed_onto a c) (reversed_onto b (y ∷ d)) (omega arith)
      (Edits-reversed_onto a b n c (y ∷ d) (m + 1) e (add y c d m f))
Edits-reversed_onto _ _ _ c d m (match x y a b n e) f =
    Edits_as (reversed_onto a (x ∷ c)) (reversed_onto b (y ∷ d)) (omega arith)
      (Edits-reversed_onto a b n (x ∷ c) (y ∷ d) (m + cost x y) e (match x y c d m f))

reversed_onto_twice :
    (a c d : List ℕ) → reversed_onto (reversed_onto a c) d ≡ reversed_onto c (a ++ d)
reversed_onto_twice [] c d = refl
reversed_onto_twice (x ∷ a) c d = reversed_onto_twice a (x ∷ c) d

reversed_back : (a : List ℕ) → reversed_onto (reversed_onto a []) [] ≡ a
reversed_back a = reversed_onto_twice a [] [] ∙ append-nil a

-- The distance is the least number of edits, each a character dropped, added or replaced, that
-- turn one text into the other: so many are enough, and no fewer are.
pub levenshtein_lem :
    (a b : List ℕ) → Edits a b (levenshtein a b) × ((n : ℕ) → Edits a b n → levenshtein a b ≤ n)
levenshtein_lem a b =
    let ra = reversed_onto a [] in
    let rb = reversed_onto b [] in
    let enough : Edits ra rb (distance ra rb) = distance-Edits ra rb in
    let back : Edits (reversed_onto ra []) (reversed_onto rb []) (distance ra rb) =
      Edits_as (reversed_onto ra []) (reversed_onto rb []) (omega arith)
        (Edits-reversed_onto ra rb (distance ra rb) [] [] 0 enough none_left) in
    let same : Edits a b (distance ra rb) = rw (reversed_back a, reversed_back b) at back in
    rw (levenshtein-distance a b) (
      same,
      λ n e.
          let turned : Edits ra rb (n + 0) = Edits-reversed_onto a b n [] [] 0 e none_left in
          omega (arith, distance-le-Edits ra rb (n + 0) turned),
    )
