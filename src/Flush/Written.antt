-- ===== src/Flush/Written.antt =====
-- Which files the blocks of a flush touch, and what they hold afterwards.
use mathlib.Core.Path.{subst}
use evald.Prelude.{
  ℕ, suc, ◌≡◌, refl, ap, ◌∙◌, sym, true, false, Option, some, List, [], ◌∷◌, map, Text, text_beq,
  text_eq, text_beq_iff, contains, IsDistinct, beq_refl, arith, Bool-cases, inl, inr,
}
use evald.Prelude.Io.{Result, ok, err}
use evald.Prelude.Maps.{Map, text_less, get, get-put}
use evald.Model.{NormalizedSpan}
use evald.Key.{SpanKey, key_eq}
use evald.Hot.{or_default}
use evald.Index.{BlockMeta}
use evald.Query.Distinct.{identities}
use evald.Flush.{
  Files, Publish, published, unpublished, after_rename, rel_path_of, stem_of, block_meta,
  write_block, write_blocks, join_blocks,
}
use evald.Flush.Groups.{in_groups}

-- The paths of the blocks of some groups, from the number `idx` on.
abbrev pub targets : ℕ → ℕ → Map Text (List NormalizedSpan) → List Text
targets seqno idx [] = []
targets seqno idx ((partition, group) ∷ rest) =
    rel_path_of partition (stem_of seqno idx) ∷ targets seqno (suc idx) rest

write_block-other :
    (files : Files) (partition stem p : Text) (group : List NormalizedSpan) (publish : Publish)
    → text_beq (rel_path_of partition stem) p ≡ false
    → get p (write_block files partition stem group publish).1 ≡ get p files
unfolding write_block
write_block-other files partition stem p group published h =
    get-put (rel_path_of partition stem) p group files ∙ rw h refl
write_block-other files partition stem p group (unpublished kind) h = refl
write_block-other files partition stem p group (after_rename kind) h =
    get-put (rel_path_of partition stem) p group files ∙ rw h refl

join_blocks-other :
    (r : Result BlockMeta) (files : Files) (later : Result (List BlockMeta) × Files) (p : Text)
    (o : Option (List NormalizedSpan))
    → get p files ≡ o
    → get p later.1 ≡ o
    → get p (join_blocks r files later).1 ≡ o
join_blocks-other (err kind) files later p o e f = e
join_blocks-other (ok block) files (err kind, files') p o e f = f
join_blocks-other (ok block) files (ok blocks, files') p o e f = f

join_blocks-ok :
    (r : Result BlockMeta) (files : Files) (later : Result (List BlockMeta) × Files)
    (blocks : List BlockMeta)
    → (join_blocks r files later).0 ≡ ok blocks
    → (block : BlockMeta) × (rest : List BlockMeta) × (r ≡ ok block)
      × (later.0 ≡ ok rest)
      × (block ∷ rest ≡ blocks)
      × ((join_blocks r files later).1 ≡ later.1)
join_blocks-ok (err kind) files later blocks h = cc h
join_blocks-ok (ok block) files (err kind, files') blocks h = cc h
join_blocks-ok (ok block) files (ok rest, files') blocks h = (block, rest, refl, refl, cc h, refl)

-- A file that is no target stays as it is, however the writing ends.
pub write_blocks-other :
    (groups : Map Text (List NormalizedSpan)) (files : Files) (seqno idx : ℕ)
    (publish : ℕ → Publish) (p : Text)
    → contains (targets seqno idx groups) p ≡ false
    → get p (write_blocks files seqno idx publish groups).1 ≡ get p files
unfolding write_blocks
write_blocks-other [] files seqno idx publish p h = refl
write_blocks-other ((partition, group) ∷ rest) files seqno idx publish p h =
    let stem = stem_of seqno idx in
    let done = write_block files partition stem group (publish idx) in
    let first = write_block-other files partition stem p group (publish idx) (ground arith) in
    let more = write_blocks-other rest done.1 seqno (suc idx) publish p (ground arith) in
    join_blocks-other done.0 done.1 (write_blocks done.1 seqno (suc idx) publish rest) p
      (get p files) first (more ∙ first)

-- Each group is in its file.
abbrev pub Held : Files → ℕ → ℕ → Map Text (List NormalizedSpan) → Type 0
Held files seqno idx [] = Unit
Held files seqno idx ((partition, group) ∷ rest) =
    (get (rel_path_of partition (stem_of seqno idx)) files ≡ some group)
    × Held files seqno (suc idx) rest

write_block-ok :
    (files : Files) (partition stem : Text) (group : List NormalizedSpan) (publish : Publish)
    (block : BlockMeta)
    → (write_block files partition stem group publish).0 ≡ ok block
    → (block.rel_path ≡ rel_path_of partition stem)
      × (get (rel_path_of partition stem) (write_block files partition stem group publish).1
          ≡ some group)
unfolding write_block block_meta
write_block-ok files partition stem group published block h = (
  subst (λ (b : BlockMeta). b.rel_path ≡ rel_path_of partition stem)
      {x = block_meta (rel_path_of partition stem) group} {y = block} (unfold block_meta in cc h)
      refl,
  get-put (rel_path_of partition stem) (rel_path_of partition stem) group files
      ∙ rw (beq_refl (rel_path_of partition stem)) refl,
)
write_block-ok files partition stem group (unpublished kind) block h = cc h
write_block-ok files partition stem group (after_rename kind) block h = cc h

-- When every block is written, the index gets their paths, and each group is in its file.
pub write_blocks-Held :
    (groups : Map Text (List NormalizedSpan)) (files : Files) (seqno idx : ℕ)
    (publish : ℕ → Publish) (blocks : List BlockMeta)
    → IsDistinct (targets seqno idx groups)
    → (write_blocks files seqno idx publish groups).0 ≡ ok blocks
    → (map (λ (b : BlockMeta). b.rel_path) blocks ≡ targets seqno idx groups)
      × Held (write_blocks files seqno idx publish groups).1 seqno idx groups
unfolding write_blocks
write_blocks-Held [] files seqno idx publish blocks d h = (
  subst (λ (l : List BlockMeta). map (λ (b : BlockMeta). b.rel_path) l ≡ []) {x = []} (cc h) refl,
  tt,
)
write_blocks-Held ((partition, group) ∷ rest) files seqno idx publish blocks d h =
    let stem = stem_of seqno idx in
    let done = write_block files partition stem group (publish idx) in
    let rest_of = write_blocks done.1 seqno (suc idx) publish rest in
    let (block, later, e, f, listed, same) = join_blocks-ok done.0 done.1 rest_of blocks h in
    let (named, held) = write_block-ok files partition stem group (publish idx) block e in
    let (names, more) = write_blocks-Held rest done.1 seqno (suc idx) publish later d.1 f in
    let kept =
      write_blocks-other rest done.1 seqno (suc idx) publish (rel_path_of partition stem) d.0 in
    (
      ap (map (λ (b : BlockMeta). b.rel_path)) (sym listed) ∙ cc (named, names),
      subst (λ (fs : Files). Held fs seqno idx ((partition, group) ∷ rest)) (sym same)
          (kept ∙ held, more),
    )

-- An identity of the groups is in the file of a target, and the files of the targets hold no other.
pub Held-target :
    (groups : Map Text (List NormalizedSpan)) (files : Files) (seqno idx : ℕ) (k : SpanKey)
    → Held files seqno idx groups
    → in_groups k groups ≡ true
    → (p : Text) × (contains (targets seqno idx groups) p ≡ true)
      × (contains (identities (or_default (get p files))) k ≡ true)
Held-target [] files seqno idx k held h = absurd (ground arith)
Held-target ((partition, group) ∷ rest) files seqno idx k held h =
    elim (Bool-cases (contains (identities group) k)) [
      | inl here ↦ (
        rel_path_of partition (stem_of seqno idx),
        ground (
          arith,
          text_beq_iff (rel_path_of partition (stem_of seqno idx))
              (rel_path_of partition (stem_of seqno idx)),
        ),
        rw held.0 here,
      )
      | inr there ↦
          let (p, listed, found) = Held-target rest files seqno (suc idx) k held.1 (ground arith) in
          (p, ground arith, found)
    ]

pub target-Held :
    (groups : Map Text (List NormalizedSpan)) (files : Files) (seqno idx : ℕ) (k : SpanKey)
    (p : Text)
    → Held files seqno idx groups
    → contains (targets seqno idx groups) p ≡ true
    → contains (identities (or_default (get p files))) k ≡ true
    → in_groups k groups ≡ true
target-Held [] files seqno idx k p held listed h = absurd (ground arith)
target-Held ((partition, group) ∷ rest) files seqno idx k p held listed h =
    elim (Bool-cases (text_beq (rel_path_of partition (stem_of seqno idx)) p)) [
      | inl here ↦
          let same : rel_path_of partition (stem_of seqno idx) ≡ p =
            (text_beq_iff (rel_path_of partition (stem_of seqno idx)) p).0 here in
          let file : get p files ≡ some group =
            subst (λ (q : Text). get q files ≡ some group) same held.0 in
          ground (
            arith,
            ap (λ (o : Option (List NormalizedSpan)). contains (identities (or_default o)) k) file,
          )
      | inr there ↦ ground (arith, target-Held rest files seqno (suc idx) k p)
    ]
