-- ===== src/Flush/Names.antt =====
-- The paths of a flush's blocks tell the segment and the number of the block, so they are new to an
-- index whose blocks come from segments up to the watermark.
use mathlib.Core.List.{append_assoc}
use evald.Prelude.{
  ℕ, suc, ◌+◌, ◌^◌, ◌≤◌, ◌<◌, ◌≡◌, refl, sym, ap, ◌∙◌, true, false, List, [], ◌∷◌, ◌++◌, Text,
  bytes, text_beq, text_beq_iff, text_eq, contains, IsDistinct, split, split_none, split-append,
  All, length, length-append, ends_with, nat_beq, if◌then◌else◌, arith, Bool-cases, inl, inr,
}
use evald.Prelude.Decimal.{
  decimal, padded, parse_u64, parse_u64-decimal, parse_u64-padded, AreDigits, is_ascii_digit,
  decimal-AreDigits, padded-AreDigits,
}
use evald.Prelude.Maps.{Map}
use evald.Model.{NormalizedSpan}
use evald.Index.{or_zero}
use evald.Flush.{rel_path_of, stem_of}
use evald.Flush.Written.{targets}

-- What stands behind the last `/`.
abbrev drop_dirs : Text → Text → Text
drop_dirs best [] = best
drop_dirs best (c ∷ rest) = drop_dirs (if nat_beq c b'/' then rest else best) rest

abbrev pub file_name : Text → Text
file_name s = drop_dirs s s

abbrev pub NoSlash : Text → Type 0
NoSlash = All (λ (c : ℕ). nat_beq c b'/' ≡ false)

drop_dirs-append : (a b best : Text) → drop_dirs best (a ++ b'/' ∷ b) ≡ drop_dirs b b
drop_dirs-append [] b best = refl
drop_dirs-append (c ∷ a) b best =
    drop_dirs-append a b (if nat_beq c b'/' then a ++ b'/' ∷ b else best)

drop_dirs_none : (b best : Text) → NoSlash b → drop_dirs best b ≡ best
drop_dirs_none [] best h = refl
drop_dirs_none (c ∷ b) best h = rw (h.0) (drop_dirs_none b best h.1)

pub file_name-append : (a b : Text) → NoSlash b → file_name (a ++ b'/' ∷ b) ≡ b
file_name-append a b h = drop_dirs-append a b (a ++ b'/' ∷ b) ∙ drop_dirs_none b b h

abbrev pub first_part : List Text → Text
first_part [] = []
first_part (part ∷ parts) = part

abbrev second_part : List Text → Text
second_part [] = []
second_part (part ∷ parts) = first_part parts

-- The number that a block's name begins with, and the one behind the first dash.
abbrev pub name_seqno : Text → ℕ
name_seqno p = or_zero (parse_u64 (first_part (split (file_name p) b'-')))

abbrev idx_in : List Text → ℕ
idx_in parts = or_zero (parse_u64 (first_part (split (second_part parts) b'.')))

abbrev pub name_idx : Text → ℕ
name_idx p = idx_in (split (file_name p) b'-')

-- A byte that is no digit.
abbrev pub DigitFree : ℕ → Type 0
DigitFree at = is_ascii_digit at ≡ false

pub avoids :
    (s : Text) (at : ℕ) → AreDigits s → DigitFree at → All (λ (c : ℕ). nat_beq c at ≡ false) s
avoids [] at h f = tt
avoids (c ∷ s) at h f = (ground (arith, h.0, f), avoids s at h.1 f)

pub All-plus : (P : ℕ → Type 0) (a b : Text) → All P a → All P b → All P (a ++ b)
All-plus P [] b h k = k
All-plus P (c ∷ a) b h k = (h.0, All-plus P a b h.1 k)

module _ (partition : Text) (seqno idx : ℕ) where
  abbrev name_of : Text
  name_of = padded seqno ++ b'-' ∷ (decimal idx ++ b'.' ∷ bytes "parquet")

  name_of-NoSlash : NoSlash name_of
  name_of-NoSlash =
      All-plus (λ (c : ℕ). nat_beq c b'/' ≡ false) (padded seqno) _
        (avoids (padded seqno) b'/' (padded-AreDigits seqno) refl)
        (
          refl,
          All-plus (λ (c : ℕ). nat_beq c b'/' ≡ false) (decimal idx) _
              (avoids (decimal idx) b'/' (decimal-AreDigits idx) refl)
              (refl, (refl, (refl, (refl, (refl, (refl, (refl, (refl, tt)))))))),
        )

  path_parts :
      rel_path_of partition (stem_of seqno idx) ≡ (bytes "blocks/" ++ partition) ++ b'/' ∷ name_of
  path_parts = simp append_assoc

  file_name-path : file_name (rel_path_of partition (stem_of seqno idx)) ≡ name_of
  file_name-path =
      ap file_name path_parts
      ∙ file_name-append (bytes "blocks/" ++ partition) name_of name_of-NoSlash

  name_parts :
      split name_of b'-' ≡ padded seqno ∷ split (decimal idx ++ b'.' ∷ bytes "parquet") b'-'
  name_parts =
      split-append (padded seqno) (decimal idx ++ b'.' ∷ bytes "parquet") b'-'
        (avoids (padded seqno) b'-' (padded-AreDigits seqno) refl)

  pub name_seqno-path :
      seqno < 2 ^ 64 → name_seqno (rel_path_of partition (stem_of seqno idx)) ≡ seqno
  name_seqno-path fits =
      ap (λ (s : Text). or_zero (parse_u64 (first_part (split s b'-')))) file_name-path
      ∙ ap (λ (l : List Text). or_zero (parse_u64 (first_part l))) name_parts
      ∙ ap or_zero (parse_u64-padded seqno fits)

  split_tail :
      split (decimal idx ++ b'.' ∷ bytes "parquet") b'-'
      ≡ (decimal idx ++ b'.' ∷ bytes "parquet") ∷ []
  split_tail = split_none (decimal idx ++ b'.' ∷ bytes "parquet") b'-' (
      All-plus (λ (c : ℕ). nat_beq c b'-' ≡ false) (decimal idx) (b'.' ∷ bytes "parquet")
        (avoids (decimal idx) b'-' (decimal-AreDigits idx) refl)
        (refl, (refl, (refl, (refl, (refl, (refl, (refl, (refl, tt)))))))))

  pub name_idx-path : idx < 2 ^ 64 → name_idx (rel_path_of partition (stem_of seqno idx)) ≡ idx
  name_idx-path fits =
      ap (λ (s : Text). idx_in (split s b'-')) file_name-path
      ∙ ap idx_in name_parts
      ∙ ap (λ (l : List Text). or_zero (parse_u64 (first_part (split (first_part l) b'.'))))
          split_tail
      ∙ ap (λ (l : List Text). or_zero (parse_u64 (first_part l)))
          (split-append (decimal idx) (bytes "parquet") b'.'
            (avoids (decimal idx) b'.' (decimal-AreDigits idx) refl))
      ∙ ap or_zero (parse_u64-decimal idx fits)

-- Every target of a flush has its segment in its name, and the blocks are numbered on.
targets_named :
    (seqno idx : ℕ) (groups : Map Text (List NormalizedSpan)) (p : Text)
    → seqno < 2 ^ 64
    → idx + length groups ≤ 2 ^ 64
    → contains (targets seqno idx groups) p ≡ true
    → (name_seqno p ≡ seqno) × (idx ≤ name_idx p)
targets_named seqno idx [] p fits room h = cc
targets_named seqno idx ((partition, group) ∷ rest) p fits room h =
    let path = rel_path_of partition (stem_of seqno idx) in
    elim (Bool-cases (text_beq path p)) [
      | inl e ↦
          let same = (text_beq_iff path p).0 e in
          (
            sym (ap name_seqno same) ∙ name_seqno-path partition seqno idx fits,
            omega (arith, sym (ap name_idx same) ∙ name_idx-path partition seqno idx (omega arith)),
          )
      | inr e ↦
          let (here, below) = targets_named seqno (suc idx) rest p fits (omega arith) (rw e at h) in
          (here, omega arith)
    ]

pub targets-IsDistinct :
    (seqno idx : ℕ) (groups : Map Text (List NormalizedSpan))
    → seqno < 2 ^ 64
    → idx + length groups ≤ 2 ^ 64
    → IsDistinct (targets seqno idx groups)
targets-IsDistinct seqno idx [] fits room = tt
targets-IsDistinct seqno idx ((partition, group) ∷ rest) fits room =
    let path = rel_path_of partition (stem_of seqno idx) in
    (
      elim (Bool-cases (contains (targets seqno (suc idx) rest) path)) [
        | inl twice ↦
            let (here, below) = targets_named seqno (suc idx) rest path fits (omega arith) twice in
            absurd (omega (arith, below, name_idx-path partition seqno idx (omega arith)))
        | inr once ↦ once
      ],
      targets-IsDistinct seqno (suc idx) rest fits (omega arith),
    )

pub name_seqno-targets :
    (seqno : ℕ) (groups : Map Text (List NormalizedSpan)) (p : Text)
    → seqno < 2 ^ 64
    → length groups ≤ 2 ^ 64
    → contains (targets seqno 0 groups) p ≡ true
    → name_seqno p ≡ seqno
name_seqno-targets seqno groups p fits room h =
    (targets_named seqno 0 groups p fits (omega arith) h).0

-- A name that ends in `.parquet` is no temporary file's.
pub published_name : (a : Text) → ends_with (a ++ bytes ".parquet") (bytes ".tmp") ≡ false
published_name [] = refl
published_name (c ∷ a) = elim (Bool-cases (text_beq (c ∷ (a ++ bytes ".parquet")) (bytes ".tmp"))) [
  | inl e ↦ absurd (
      omega (
        arith,
        ap length ((text_beq_iff (c ∷ (a ++ bytes ".parquet")) (bytes ".tmp")).0 e),
        length-append a (bytes ".parquet"),
      ))
  | inr e ↦ rw e (published_name a)
]

pub targets_published :
    (seqno idx : ℕ) (groups : Map Text (List NormalizedSpan)) (p : Text)
    → contains (targets seqno idx groups) p ≡ true
    → ends_with p (bytes ".tmp") ≡ false
targets_published seqno idx [] p h = cc
targets_published seqno idx ((partition, group) ∷ rest) p h =
    let path = rel_path_of partition (stem_of seqno idx) in
    elim (Bool-cases (text_beq path p)) [
      | inl e ↦
          sym (ap (λ (q : Text). ends_with q (bytes ".tmp")) ((text_beq_iff path p).0 e))
          ∙ published_name (bytes "blocks/" ++ partition ++ bytes "/" ++ stem_of seqno idx)
      | inr e ↦ targets_published seqno (suc idx) rest p (rw e at h)
    ]
