-- ===== src/Provenance/Examples.antt =====
-- A merged block's footer, and the name of a block that has none.
use evald.Prelude.{
  ℕ, ◌+◌, ◌-◌, nat_beq, if◌then◌else◌, ◌≡◌, refl, true, some, List, [], ◌∷◌, Text, bytes, arith,
}
use evald.Provenance.{
  flush, merged, Provenance, Strings, key_value_metadata, from_key_values, stem_range,
}
use evald.Provenance.Declared.{from_key_values-key_value_metadata}
use evald.Provenance.Names.{merged_stem, prefix_of, stem_range_lem}
use evald.Flush.{stem_of}

-- A way to write a list of strings as one: a mark before each, and the bytes moved up by two.
abbrev raised : Text → Text → Text
raised [] rest = rest
raised (c ∷ s) rest = (c + 2) ∷ raised s rest

abbrev marked : List Text → Text
marked [] = []
marked (s ∷ l) = 1 ∷ raised s (marked l)

abbrev push_byte : ℕ → Text × List Text → Text × List Text
push_byte c (s, l) = if nat_beq c 1 then ([], s ∷ l) else ((c - 2) ∷ s, l)

abbrev unmarked : Text → Text × List Text
unmarked [] = ([], [])
unmarked (c ∷ rest) = push_byte c (unmarked rest)

unmarked-raised :
    (s rest : Text) (l : List Text) → unmarked rest ≡ ([], l) → unmarked (raised s rest) ≡ (s, l)
unmarked-raised [] rest l h = h
unmarked-raised (c ∷ s) rest l h = rw (unmarked-raised s rest l h) (ground arith)

unmarked-marked : (l : List Text) → unmarked (marked l) ≡ ([], l)
unmarked-marked [] = refl
unmarked-marked (s ∷ l) = rw (unmarked-raised s (marked l) l (unmarked-marked l)) refl

abbrev marked_strings : Strings
marked_strings = record {
  to_string = marked;
  from_str = λ s. some (unmarked s).1;
  from_str-to_string = λ l. rw (unmarked-marked l) refl;
}

abbrev day : Provenance
day = record {
  kind = merged;
  seqno_lo = 4;
  seqno_hi = 9;
  merged_from = bytes "a" ∷ bytes "b" ∷ [];
  price_tables = bytes "2026" ∷ [];
  declared = true;
}

from_key_values-key_value_metadata_example :
    from_key_values marked_strings
      (bytes "0.3.0")
      (some (key_value_metadata marked_strings (bytes "0.3.0") day))
      (bytes "day-4-9")
    ≡ day
from_key_values-key_value_metadata_example =
    from_key_values-key_value_metadata marked_strings (bytes "0.3.0") merged 4 9
      (bytes "a" ∷ bytes "b" ∷ []) (bytes "2026" ∷ []) (bytes "day-4-9") (omega arith) (omega arith)
      tt

legacy_name : stem_range (bytes "day-00000000000000000001-00000000000000000042") ≡ (merged, 1, 42)
unfolding stem_range
legacy_name = refl

odd_name : stem_range (bytes "merged-x") ≡ (flush, 0, 0)
unfolding stem_range
odd_name = refl

stem_range_lem_example :
    (stem_range (stem_of 7 2) ≡ (flush, 7, 7))
    × (stem_range (merged_stem (prefix_of true) 7 9) ≡ (merged, 7, 9))
stem_range_lem_example = stem_range_lem 7 9 2 true (omega arith) (omega arith)
