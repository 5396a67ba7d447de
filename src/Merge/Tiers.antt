-- ===== src/Merge/Tiers.antt =====
-- Size tiers: why a merge's output is not an input of the same tier again.
use evald.Prelude.{
  ℕ, zero, suc, ◌+◌, ◌*◌, ◌/◌, ◌^◌, ◌≤◌, ◌<◌, max, ◌≡◌, List, [], ◌∷◌, All, length, ltb, ltb→lt,
  arith, Bool-cases, inl, inr,
}
use evald.Merge.{Candidate}
use evald.Merge.Plan.{ilog2, tier}

abbrev pub pow2 : ℕ → ℕ
pow2 zero = 1
pow2 (suc k) = 2 * pow2 k

ilog2_bounds :
    (fuel n : ℕ)
    → 1 ≤ n
    → n < pow2 fuel
    → (pow2 (ilog2 fuel n) ≤ n) × (n < pow2 (suc (ilog2 fuel n)))
unfolding ilog2
ilog2_bounds zero n pos h = absurd (omega arith)
ilog2_bounds (suc fuel) n pos h = elim (Bool-cases (ltb n 2)) [
  | inl small ↦ rw small (ground arith)
  | inr large ↦
      let half : 1 ≤ n / 2 = ground arith in
      let (lo, hi) = ilog2_bounds fuel (n / 2) half (omega arith) in
      rw large (omega arith, omega arith)
]

pow2_mono : (a b : ℕ) → a ≤ b → pow2 a ≤ pow2 b
pow2_mono zero zero h = omega arith
pow2_mono zero (suc b) h = omega (arith, pow2_mono zero b (omega arith))
pow2_mono (suc a) zero h = absurd (omega arith)
pow2_mono (suc a) (suc b) h = omega (arith, pow2_mono a b (omega arith))

tier_bounds : (n : ℕ) → 1 ≤ n → n < 2 ^ 64 → (pow2 (tier n) ≤ n) × (n < pow2 (suc (tier n)))
unfolding tier
tier_bounds n pos fits =
    let same : max n 1 ≡ n = omega arith in rw same (ilog2_bounds 64 n pos (omega arith))

abbrev pub total_rows : List Candidate → ℕ
total_rows [] = 0
total_rows (c ∷ rest) = c.rows + total_rows rest

-- A block of rows that a `u64` counts, in a given tier.
abbrev pub IsOfTier : ℕ → Candidate → Type 0
IsOfTier t c = (1 ≤ c.rows) × (c.rows < 2 ^ 64) × (tier c.rows ≡ t)

total_rows-le :
    (t : ℕ) (chunk : List Candidate)
    → All (IsOfTier t) chunk
    → length chunk * pow2 t ≤ total_rows chunk
total_rows-le t [] h = omega arith
total_rows-le t (c ∷ rest) h =
    let (pos, fits, e) = h.0 in
    let (lo, hi) = tier_bounds c.rows pos fits in
    grind (arith, total_rows-le t rest h.1, rw (e) at lo)

-- The blocks of one tier, two or more, hold together enough rows for a strictly higher tier.
-- Each has at least one row, and the sum is of 64 bits.
pub tier-lt-total_rows :
    (t : ℕ) (chunk : List Candidate)
    → All (IsOfTier t) chunk
    → 2 ≤ length chunk
    → total_rows chunk < 2 ^ 64
    → t < tier (total_rows chunk)
tier-lt-total_rows t chunk h two fits =
    let each = total_rows-le t chunk h in
    let one = pow2_mono 0 t (omega arith) in
    let twice : 2 * pow2 t ≤ total_rows chunk = grind (arith, each, two) in
    let (lo, hi) = tier_bounds (total_rows chunk) (omega arith) fits in
    elim (Bool-cases (ltb t (tier (total_rows chunk)))) [
      | inl above ↦ ltb→lt t (tier (total_rows chunk)) above
      | inr below ↦
          let within : tier (total_rows chunk) ≤ t = ground (arith, below) in
          absurd (omega (arith, pow2_mono (suc (tier (total_rows chunk))) (suc t) (omega arith)))
    ]
