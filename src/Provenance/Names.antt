-- ===== src/Provenance/Names.antt =====
-- What the names of blocks say of their segments, and that they are different where segments are.
use mathlib.Core.List.{append_assoc}
use evald.Prelude.{
  Bool, ℕ, ◌^◌, ◌<◌, ◌≡◌, refl, ap, ◌∙◌, true, false, none, some, [], ◌∷◌, ◌++◌, Text, bytes,
  strip_prefix, split, split-append, split_none, All, nat_beq, length, arith,
}
use evald.Prelude.Options.{◌>>=◌, or_else}
use evald.Prelude.Decimal.{
  decimal, padded, parse_u64, parse_u64-padded, AreDigits, padded-AreDigits, length-padded-pos,
}
use evald.Flush.{stem_of}
use evald.Provenance.{flush, merged, stem_range, parse_range, or_first_number, or_seqno_zero}

-- `{prefix}-{lo:020}-{hi:020}`, the stem that a merge gives its output.
abbrev pub merged_stem : Text → ℕ → ℕ → Text
merged_stem prefix lo hi = prefix ++ b'-' ∷ (padded lo ++ b'-' ∷ padded hi)

no_dash : (s : Text) → AreDigits s → All (λ (c : ℕ). nat_beq c b'-' ≡ false) s
no_dash [] h = tt
no_dash (c ∷ s) h = (ground arith, no_dash s h.1)

no_prefix :
    (s rest : Text)
    → AreDigits s
    → 0 < length s
    → or_else (strip_prefix (s ++ rest) (bytes "merged-")) (strip_prefix (s ++ rest) (bytes "day-"))
      ≡ none
no_prefix [] rest d h = absurd (omega arith)
no_prefix (c ∷ s) rest d h =
    let m : nat_beq c b'm' ≡ false = ground (arith, d.0) in
    let y : nat_beq c b'd' ≡ false = ground (arith, d.0) in rw (m, y) refl

-- A name that begins with a number and has no known prefix.
stem_range_of_number :
    (s rest : Text)
    → AreDigits s
    → 0 < length s
    → stem_range (s ++ b'-' ∷ rest) ≡ or_seqno_zero (parse_u64 s)
unfolding stem_range
stem_range_of_number s rest d h =
    rw (no_prefix s (b'-' ∷ rest) d h) (rw (split-append s rest b'-' (no_dash s d)) refl)

stem_range_of_range :
    (lo hi : Text)
    → AreDigits lo
    → AreDigits hi
    → parse_range (split (lo ++ b'-' ∷ hi) b'-')
      ≡ (do l ← parse_u64 lo; h ← parse_u64 hi; some (l, h))
unfolding parse_range
stem_range_of_range lo hi d e =
    rw (split-append lo hi b'-' (no_dash lo d), split_none hi b'-' (no_dash hi e)) refl

-- `merged` or `day`
abbrev pub prefix_of : Bool → Text
prefix_of true = bytes "day"
prefix_of false = bytes "merged"

range_of_prefix :
    (is_day : Bool) (lo hi : Text)
    → AreDigits lo
    → AreDigits hi
    → stem_range (prefix_of is_day ++ b'-' ∷ (lo ++ b'-' ∷ hi))
      ≡ or_first_number
          (prefix_of is_day ++ b'-' ∷ (lo ++ b'-' ∷ hi))
          (do l ← parse_u64 lo; h ← parse_u64 hi; some (l, h))
unfolding stem_range
range_of_prefix true lo hi d e = rw (stem_range_of_range lo hi d e) refl
range_of_prefix false lo hi d e = rw (stem_range_of_range lo hi d e) refl

-- The names that the flush and the merges give their blocks tell the segments, also where the
-- footer does not: the one of a flush, and the range of a merge within an hour or of a day.
-- The numbers are of 64 bits.
pub stem_range_lem :
    (lo hi idx : ℕ) (is_day : Bool)
    → lo < 2 ^ 64
    → hi < 2 ^ 64
    → (stem_range (stem_of lo idx) ≡ (flush, lo, lo))
      × (stem_range (merged_stem (prefix_of is_day) lo hi) ≡ (merged, lo, hi))
stem_range_lem lo hi idx is_day l h = (
  ap stem_range (append_assoc (padded lo) (b'-' ∷ []) (decimal idx))
      ∙ stem_range_of_number (padded lo) (decimal idx) (padded-AreDigits lo) (length-padded-pos lo)
      ∙ ap or_seqno_zero (parse_u64-padded lo l),
  range_of_prefix is_day (padded lo) (padded hi) (padded-AreDigits lo) (padded-AreDigits hi)
      ∙ rw (parse_u64-padded lo l, parse_u64-padded hi h) refl,
)
