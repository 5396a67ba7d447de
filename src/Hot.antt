-- ===== src/Hot.antt =====
-- The in-memory hot tier, `HotTier` of src/store/mod.rs: the spans not yet flushed, by the WAL
-- segment they were appended to.
pub mod Laws
pub mod Push
pub mod Examples
use evald.Prelude.{
  nat_eq, ℕ, ◌+◌, Bool, true, false, Option, none, some, List, [], ◌∷◌, ◌++◌, length, if◌then◌else◌,
}
use evald.Prelude.Maps.{Map, nat_less, get, put, delete, keys, values}
use evald.Model.{NormalizedSpan}

pub record HotTier : Type 0 where
  pub segments : Map ℕ (List NormalizedSpan)

abbrev pub hot_empty : HotTier
hot_empty = record { segments = [] }

abbrev pub or_default {ℓ} : {A : Type ℓ} → Option (List A) → List A
or_default none = []
or_default (some xs) = xs

abbrev pub is_empty {ℓ} : {A : Type ℓ} → List A → Bool
is_empty [] = true
is_empty (x ∷ xs) = false

unfoldable pub load_segment : HotTier → ℕ → List NormalizedSpan → HotTier
load_segment hot seqno spans =
    if is_empty spans then hot else record { segments = put seqno spans hot.segments }

unfoldable pub push : HotTier → ℕ → List NormalizedSpan → HotTier
push hot seqno spans = record {
  segments = put seqno (or_default (get seqno hot.segments) ++ spans) hot.segments;
}

unfoldable pub drop_segment : HotTier → ℕ → HotTier
drop_segment hot seqno = record { segments = delete seqno hot.segments }

unfoldable pub segment : HotTier → ℕ → Option (List NormalizedSpan)
segment hot seqno = get seqno hot.segments

unfoldable pub segnos : HotTier → List ℕ
segnos hot = keys hot.segments

abbrev pub concat {ℓ} : {A : Type ℓ} → List (List A) → List A
concat [] = []
concat (xs ∷ rest) = xs ++ concat rest

abbrev pub sum_lengths {ℓ} : {A : Type ℓ} → List (List A) → ℕ
sum_lengths [] = 0
sum_lengths (xs ∷ rest) = length xs + sum_lengths rest

unfoldable pub all_spans : HotTier → List NormalizedSpan
all_spans hot = concat (values hot.segments)

unfoldable pub len : HotTier → ℕ
len hot = sum_lengths (values hot.segments)
