-- ===== src/Merge/Plan.antt =====
-- src/store/merge.rs: what the planner reads of each block, and the chunks it merges.
use evald.Prelude.{
  ℕ, zero, suc, ◌-◌, ◌/◌, max, Bool, false, ◌&&◌, ◌||◌, Option, none, some, List, [], ◌∷◌, ◌++◌,
  Text, text_eq, nat_eq, length, all, ltb, leb, nat_beq, if◌then◌else◌,
}
use evald.Prelude.Io.{ErrorKind, Result, ok, err}
use evald.Prelude.Maps.{text_less, nat_less, text_ltb, get}
use evald.Model.{NormalizedSpan}
use evald.Flush.{Files}
use evald.Retention.{saturating_add}
use evald.Merge.{Footer, Candidate}

-- How the reading of one block's metadata ends.
pub data Stat : Type 0 where
  found : Candidate → Stat
  missing : Stat
  unreadable : ErrorKind → Stat

abbrev pub candidate_of : Text → Footer → List NormalizedSpan → Candidate
candidate_of rel footer spans = record {
  rel = rel;
  rows = length spans;
  bytes = footer.bytes;
  modified = footer.modified;
  seqno_lo = footer.seqno_lo;
  seqno_hi = footer.seqno_hi;
  price_tables = footer.price_tables;
}

abbrev pub stat_file : Option ErrorKind → Text → Footer → Option (List NormalizedSpan) → Stat
stat_file failure rel footer none = missing
stat_file none rel footer (some spans) = found (candidate_of rel footer spans)
stat_file (some kind) rel footer (some spans) = unreadable kind

abbrev pub join_candidate : Stat → Result (List Candidate) → Result (List Candidate)
join_candidate missing later = later
join_candidate (unreadable kind) later = err kind
join_candidate (found c) (err kind) = err kind
join_candidate (found c) (ok cands) = ok (c ∷ cands)

-- `failing rel` is the error of reading the footer of a block that is there, if it has one.
unfoldable pub candidates :
    (Text → Option ErrorKind) → (Text → Footer) → Files → List Text → Result (List Candidate)
candidates failing footers files [] = ok []
candidates failing footers files (rel ∷ rest) =
    join_candidate (stat_file (failing rel) rel (footers rel) (get rel files))
      (candidates failing footers files rest)

-- `now.duration_since(m)` fails for a time that is still to come.
abbrev pub has_rested : Option ℕ → ℕ → ℕ → Bool
has_rested none now quiet = false
has_rested (some m) now quiet = leb m now && leb quiet (now - m)

unfoldable pub is_quiet : List Candidate → ℕ → ℕ → Bool
is_quiet cands now quiet = all (λ (c : Candidate). has_rested c.modified now quiet) cands

-- `u64::ilog2`, on fuel: one round for each bit.
unfoldable pub ilog2 : ℕ → ℕ → ℕ
ilog2 zero n = 0
ilog2 (suc fuel) n = let more = suc (ilog2 fuel (n / 2)) in if ltb n 2 then 0 else more

unfoldable pub tier : ℕ → ℕ
unfolding ilog2
tier rows = ilog2 64 (max rows 1)

-- The order of `cands.sort_by`.
unfoldable pub comes_before : Candidate → Candidate → Bool
comes_before a b =
    ltb a.seqno_lo b.seqno_lo || nat_beq a.seqno_lo b.seqno_lo && text_ltb a.rel b.rel

unfoldable pub insert_candidate : Candidate → List Candidate → List Candidate
unfolding comes_before
insert_candidate c [] = c ∷ []
insert_candidate c (d ∷ rest) =
    if comes_before d c then d ∷ insert_candidate c rest else c ∷ d ∷ rest

-- The stable sort, from its last element to its first.
unfoldable pub sort_candidates : List Candidate → List Candidate
unfolding insert_candidate
sort_candidates [] = []
sort_candidates (c ∷ rest) = insert_candidate c (sort_candidates rest)

abbrev pub flushed : List (List Candidate) → List Candidate → List (List Candidate)
flushed out [] = out
flushed out (c ∷ current) = out ++ (c ∷ current) ∷ []

abbrev pub exceeds : ℕ → ℕ → List Candidate → Candidate → Bool
exceeds most rows [] c = false
exceeds most rows (d ∷ current) c = ltb most (saturating_add rows c.rows)

-- The loop of `chunks`.
unfoldable pub chunk_loop :
    ℕ → List (List Candidate) → List Candidate → ℕ → List Candidate → List (List Candidate)
chunk_loop most out current rows [] = flushed out current
chunk_loop most out current rows (c ∷ cands) =
    let next = exceeds most rows current c in
    chunk_loop most (if next then flushed out current else out)
      (if next then c ∷ [] else current ++ c ∷ [])
      (if next then saturating_add 0 c.rows else saturating_add rows c.rows) cands

unfoldable pub chunks : List Candidate → ℕ → List (List Candidate)
unfolding chunk_loop sort_candidates
chunks cands max_spans = chunk_loop (max max_spans 1) [] [] 0 (sort_candidates cands)
