-- ===== src/Merge/Names.antt =====
-- The names of merged blocks begin with no number, and are no temporary files'.
use mathlib.Core.List.{append_assoc}
use evald.Prelude.{
  ℕ, ◌≡◌, refl, ap, ◌∙◌, Bool, true, false, List, ◌∷◌, ◌++◌, Text, bytes, ends_with, split,
  split-append, All, nat_beq, if◌then◌else◌,
}
use evald.Prelude.Decimal.{padded, padded-AreDigits, parse_u64}
use evald.Index.{or_zero}
use evald.Flush.Names.{
  file_name-append, NoSlash, name_seqno, first_part, avoids, All-plus, published_name,
}
use evald.Merge.{Candidate}
use evald.Merge.Inputs.{output_rel, lowest, highest}

-- `"merged"` or `"day"`
abbrev pub prefix_in : Bool → Text
prefix_in in_hours = if in_hours then bytes "merged" else bytes "day"

module _ (dir : Text) (chunk : List Candidate) where
  abbrev numbers : Text
  numbers = padded (lowest chunk) ++ b'-' ∷ (padded (highest chunk) ++ bytes ".parquet")

  numbers-NoSlash : NoSlash numbers
  numbers-NoSlash =
      All-plus (λ (c : ℕ). nat_beq c b'/' ≡ false) (padded (lowest chunk)) _
        (avoids (padded (lowest chunk)) b'/' (padded-AreDigits (lowest chunk)) refl)
        (
          refl,
          All-plus (λ (c : ℕ). nat_beq c b'/' ≡ false) (padded (highest chunk)) _
              (avoids (padded (highest chunk)) b'/' (padded-AreDigits (highest chunk)) refl)
              (refl, (refl, (refl, (refl, (refl, (refl, (refl, (refl, tt)))))))),
        )

  output_parts :
      (prefix : Text) → output_rel dir prefix chunk ≡ dir ++ b'/' ∷ (prefix ++ b'-' ∷ numbers)
  output_parts prefix = simp append_assoc

  named_of :
      (prefix : Text)
      → NoSlash prefix
      → All (λ (c : ℕ). nat_beq c b'-' ≡ false) prefix
      → name_seqno (output_rel dir prefix chunk) ≡ or_zero (parse_u64 prefix)
  named_of prefix plain whole =
      ap name_seqno (output_parts prefix)
      ∙ ap (λ (s : Text). or_zero (parse_u64 (first_part (split s b'-'))))
          (file_name-append dir (prefix ++ b'-' ∷ numbers)
            (All-plus (λ (c : ℕ). nat_beq c b'/' ≡ false) prefix _ plain (refl, numbers-NoSlash)))
      ∙ ap (λ (l : List Text). or_zero (parse_u64 (first_part l)))
          (split-append prefix numbers b'-' whole)

  pub name_seqno-output_rel :
      (in_hours : Bool) → name_seqno (output_rel dir (prefix_in in_hours) chunk) ≡ 0
  name_seqno-output_rel true =
      named_of (bytes "merged") (refl, (refl, (refl, (refl, (refl, (refl, tt))))))
        (refl, (refl, (refl, (refl, (refl, (refl, tt))))))
  name_seqno-output_rel false =
      named_of (bytes "day") (refl, (refl, (refl, tt))) (refl, (refl, (refl, tt)))

  pub published-output_rel :
      (prefix : Text) → ends_with (output_rel dir prefix chunk) (bytes ".tmp") ≡ false
  published-output_rel prefix = published_name (
      dir
      ++ bytes "/"
      ++ prefix
      ++ bytes "-"
      ++ padded (lowest chunk)
      ++ bytes "-"
      ++ padded (highest chunk))
