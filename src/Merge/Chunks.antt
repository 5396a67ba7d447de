-- ===== src/Merge/Chunks.antt =====
-- The chunks that a group of candidates is cut into.
use evald.Prelude.{
  ℕ, ◌+◌, ◌-◌, ◌^◌, ◌≤◌, ◌<◌, max, ◌≡◌, ◌⊎◌, refl, sym, ap, ◌∙◌, false, List, [], ◌∷◌, ◌++◌, All,
  length, arith, Bool-cases, inl, inr,
}
use mathlib.Core.List.{append_assoc, append-nil, Permᴰ}
use mathlib.Core.List.Permᴰ.{refl as permD_refl}
use evald.Merge.{Candidate}
use evald.Merge.Plan.{
  flushed, exceeds, chunk_loop, chunks, sort_candidates, insert_candidate, comes_before,
}
use evald.Merge.Tiers.{total_rows}
use evald.Retention.{saturating_add}

abbrev pub concat_chunks : List (List Candidate) → List Candidate
concat_chunks [] = []
concat_chunks (chunk ∷ rest) = chunk ++ concat_chunks rest

concat_chunks-append :
    (a b : List (List Candidate)) → concat_chunks (a ++ b) ≡ concat_chunks a ++ concat_chunks b
concat_chunks-append [] b = refl
concat_chunks-append (c ∷ a) b =
    ap (λ (l : List Candidate). c ++ l) (concat_chunks-append a b)
    ∙ sym (append_assoc c (concat_chunks a) (concat_chunks b))

concat_chunks-flushed :
    (out : List (List Candidate)) (current : List Candidate)
    → concat_chunks (flushed out current) ≡ concat_chunks out ++ current
concat_chunks-flushed out [] = sym (append-nil (concat_chunks out))
concat_chunks-flushed out (c ∷ current) =
    concat_chunks-append out ((c ∷ current) ∷ [])
    ∙ ap (λ (l : List Candidate). concat_chunks out ++ l) (append-nil (c ∷ current))

concat_chunks-chunk_loop :
    (most : ℕ) (out : List (List Candidate)) (current : List Candidate) (rows : ℕ)
    (cands : List Candidate)
    → concat_chunks (chunk_loop most out current rows cands)
      ≡ concat_chunks out ++ (current ++ cands)
unfolding chunk_loop
concat_chunks-chunk_loop most out current rows [] =
    concat_chunks-flushed out current
    ∙ ap (λ (l : List Candidate). concat_chunks out ++ l) (sym (append-nil current))
concat_chunks-chunk_loop most out current rows (c ∷ cands) =
    elim (Bool-cases (exceeds most rows current c)) [
      | inl e ↦ rw e (
          concat_chunks-chunk_loop most (flushed out current) (c ∷ []) (saturating_add 0 c.rows)
            cands
          ∙ ap (λ (l : List Candidate). l ++ c ∷ cands) (concat_chunks-flushed out current)
          ∙ append_assoc (concat_chunks out) current (c ∷ cands))
      | inr e ↦ rw e (
          concat_chunks-chunk_loop most out (current ++ c ∷ []) (saturating_add rows c.rows) cands
          ∙ ap (λ (l : List Candidate). concat_chunks out ++ l)
              (append_assoc current (c ∷ []) cands))
    ]

-- A chunk of one block, or of blocks whose rows fit.
abbrev pub Fits : ℕ → List Candidate → Type 0
Fits most chunk = (1 ≤ length chunk) × ((length chunk ≡ 1) ⊎ (total_rows chunk ≤ most))

abbrev Counts : ℕ → List Candidate → ℕ → Type 0
Counts most [] rows = rows ≡ 0
Counts most (c ∷ current) rows = (rows ≡ total_rows (c ∷ current)) × Fits most (c ∷ current)

All-append : {A : Type 0} (P : A → Type 0) (xs ys : List A) → All P xs → All P ys → All P (xs ++ ys)
All-append P [] ys h k = k
All-append P (x ∷ xs) ys h k = (h.0, All-append P xs ys h.1 k)

flushed-Fits :
    (most : ℕ) (out : List (List Candidate)) (current : List Candidate) (rows : ℕ)
    → All (Fits most) out
    → Counts most current rows
    → All (Fits most) (flushed out current)
flushed-Fits most out [] rows h n = h
flushed-Fits most out (c ∷ current) rows h n =
    All-append (Fits most) out ((c ∷ current) ∷ []) h (n.1, tt)

total_rows-append : (xs ys : List Candidate) → total_rows (xs ++ ys) ≡ total_rows xs + total_rows ys
total_rows-append [] ys = omega arith
total_rows-append (x ∷ xs) ys = omega (arith, total_rows-append xs ys)

grown-Counts :
    (most rows : ℕ) (current : List Candidate) (c : Candidate)
    → most < 2 ^ 64 - 1
    → c.rows < 2 ^ 64
    → Counts most current rows
    → exceeds most rows current c ≡ false
    → Counts most (current ++ c ∷ []) (saturating_add rows c.rows)
grown-Counts most rows [] c small fits n e = ground arith
grown-Counts most rows (d ∷ current) c small fits n e =
    let more = total_rows-append current (c ∷ []) in
    (ground (arith, more, n.0), (omega arith, inr (ground (arith, more, n.0))))

chunk_loop-Fits :
    (most : ℕ) (out : List (List Candidate)) (current : List Candidate) (rows : ℕ)
    (cands : List Candidate)
    → most < 2 ^ 64 - 1
    → All (λ (c : Candidate). c.rows < 2 ^ 64) cands
    → All (Fits most) out
    → Counts most current rows
    → All (Fits most) (chunk_loop most out current rows cands)
unfolding chunk_loop
chunk_loop-Fits most out current rows [] small fits h n = flushed-Fits most out current rows h n
chunk_loop-Fits most out current rows (c ∷ cands) small fits h n =
    elim (Bool-cases (exceeds most rows current c)) [
      | inl e ↦ rw e (
          chunk_loop-Fits most (flushed out current) (c ∷ []) (saturating_add 0 c.rows) cands small
            fits.1 (flushed-Fits most out current rows h n)
            (grown-Counts most 0 [] c small fits.0 refl refl))
      | inr e ↦ rw e (
          chunk_loop-Fits most out (current ++ c ∷ []) (saturating_add rows c.rows) cands small
            fits.1 h (grown-Counts most rows current c small fits.0 n e))
    ]

insert_candidate-perm : (c : Candidate) (l : List Candidate) → Permᴰ (insert_candidate c l) (c ∷ l)
unfolding insert_candidate
insert_candidate-perm c [] = permD_refl (c ∷ [])
insert_candidate-perm c (d ∷ rest) = elim (Bool-cases (comes_before d c)) [
  | inl e ↦
      rw e (Permᴰ.trans (Permᴰ.cons refl (insert_candidate-perm c rest)) (Permᴰ.swap refl refl))
  | inr e ↦ rw e (permD_refl (c ∷ d ∷ rest))
]

sort_candidates-perm : (l : List Candidate) → Permᴰ (sort_candidates l) l
unfolding sort_candidates
sort_candidates-perm [] = Permᴰ.nil
sort_candidates-perm (c ∷ rest) =
    Permᴰ.trans (insert_candidate-perm c (sort_candidates rest))
      (Permᴰ.cons refl (sort_candidates-perm rest))

-- The rows of a block are counted by a `u64`.
abbrev pub IsCounted : Candidate → Type 0
IsCounted c = c.rows < 2 ^ 64

insert_candidate-IsCounted :
    (c : Candidate) (l : List Candidate)
    → IsCounted c
    → All IsCounted l
    → All IsCounted (insert_candidate c l)
unfolding insert_candidate
insert_candidate-IsCounted c [] h k = (h, tt)
insert_candidate-IsCounted c (d ∷ rest) h k = elim (Bool-cases (comes_before d c)) [
  | inl e ↦ rw e (k.0, insert_candidate-IsCounted c rest h k.1)
  | inr e ↦ rw e (h, k)
]

sort_candidates-IsCounted :
    (l : List Candidate) → All IsCounted l → All IsCounted (sort_candidates l)
unfolding sort_candidates
sort_candidates-IsCounted [] h = tt
sort_candidates-IsCounted (c ∷ rest) h =
    insert_candidate-IsCounted c (sort_candidates rest) h.0 (sort_candidates-IsCounted rest h.1)

-- The chunks hold each candidate once, and a chunk of several blocks has no more rows than the
-- policy allows, at least one row being allowed. The limit is below the largest `u64`, so that the saturating
-- sum cannot hide an overflow.
pub chunks_lem :
    (cands : List Candidate) (max_spans : ℕ)
    → max_spans < 2 ^ 64 - 1
    → All IsCounted cands
    → Permᴰ (concat_chunks (chunks cands max_spans)) cands
      × All (Fits (max max_spans 1)) (chunks cands max_spans)
unfolding chunks
chunks_lem cands max_spans small counted = (
  rw (concat_chunks-chunk_loop (max max_spans 1) [] [] 0 (sort_candidates cands))
      (sort_candidates-perm cands),
  chunk_loop-Fits (max max_spans 1) [] [] 0 (sort_candidates cands) (omega arith)
      (sort_candidates-IsCounted cands counted) tt refl,
)
