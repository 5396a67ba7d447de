-- ===== src/Rows.antt =====
-- How a read accumulates its result: `Rows`, `TopN` and `Loser` of src/store/mod.rs.
pub mod Order
pub mod Cut
pub mod Bounded
pub mod Examples
use evald.Prelude.{
  ℕ, zero, suc, ◌+◌, Bool, true, false, Option, none, some, List, [], ◌∷◌, map, length, ltb,
  nat_beq, if◌then◌else◌,
}
use evald.Model.{NormalizedSpan}

module _ {ℓ} where
  pub record Loser (T : Type ℓ) : Type ℓ where
    pub start : ℕ
    pub seq : ℕ
    pub item : T

  -- The heap is its content in ascending `Ord` order, best first: `pop` takes the last entry and
  -- `into_sorted_vec` is the list.
  pub record TopN (T : Type ℓ) : Type ℓ where
    pub heap : List (Loser T)
    pub limit : ℕ
    pub seq : ℕ

module _ {ℓ} {T : Type ℓ} where
  -- `Ord::cmp` is `Less`: the later start, and among equal starts the earlier insertion.
  abbrev pub beats : Loser T → Loser T → Bool
  beats a b =
      if ltb b.start a.start
      then true
      else if nat_beq a.start b.start
      then ltb a.seq b.seq
      else false

  -- `BinaryHeap::push`
  abbrev pub heap_push : Loser T → List (Loser T) → List (Loser T)
  heap_push x [] = x ∷ []
  heap_push x (y ∷ heap) = if beats x y then x ∷ y ∷ heap else y ∷ heap_push x heap

  -- `BinaryHeap::pop`: the greatest entry goes.
  abbrev pub heap_pop : List (Loser T) → List (Loser T)
  heap_pop [] = []
  heap_pop (x ∷ []) = []
  heap_pop (x ∷ y ∷ heap) = x ∷ heap_pop (y ∷ heap)

  unfoldable pub top_new : ℕ → TopN T
  top_new limit = record { heap = []; limit = limit; seq = 0 }

  unfoldable pub top_push : TopN T → ℕ → T → TopN T
  top_push top start item =
      let heap = heap_push (record { start = start; seq = top.seq; item = item }) top.heap in
      record {
        heap = if ltb top.limit (length heap) then heap_pop heap else heap;
        limit = top.limit;
        seq = top.seq + 1;
      }

  abbrev items : List (Loser T) → List T
  items = map (λ l. l.item)

  unfoldable pub top_into_vec : TopN T → List T
  top_into_vec top = items top.heap

  -- `sort_by_key(|s| Reverse(s.start_unix_nano))`, a stable sort: an element goes behind those
  -- that are at least as new.
  abbrev pub insert_newest : (T → ℕ) → T → List T → List T
  insert_newest start x [] = x ∷ []
  insert_newest start x (y ∷ rest) =
      if ltb (start y) (start x) then x ∷ y ∷ rest else y ∷ insert_newest start x rest

  abbrev pub sort_onto : (T → ℕ) → List T → List T → List T
  sort_onto start sorted [] = sorted
  sort_onto start sorted (x ∷ rest) = sort_onto start (insert_newest start x sorted) rest

  unfoldable pub sort_newest : (T → ℕ) → List T → List T
  sort_newest start = sort_onto start []

-- `usize::MAX`, by which a caller says that it wants every row.
abbrev pub usize_max : ℕ
usize_max = 0xffff_ffff_ffff_ffff

pub data Rows : Type 0 where
  top : TopN NormalizedSpan → Rows
  all_rows : List NormalizedSpan → Rows

unfoldable pub rows_new : ℕ → Rows
rows_new limit = if nat_beq limit usize_max then all_rows [] else top (top_new limit)
