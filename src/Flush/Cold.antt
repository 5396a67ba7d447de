-- ===== src/Flush/Cold.antt =====
-- The identities in the cold tier, before and after the commit of a flush.
use evald.Prelude.{
  ℕ, ◌≡◌, ◌↔◌, ◌⊎◌, refl, ap, ◌∙◌, sym, Bool, true, false, ◌||◌, any, none, List, [], ◌∷◌, map,
  Text, text_beq, text_eq, nat_eq, nat_beq, contains, IsDistinct, arith, Bool-cases, inl, inr,
}
use evald.Prelude.Maps.{Map, text_less, nat_less, get, delete, keys, values}
use evald.Prelude.Copies.{first_copies, contains-first_copies}
use evald.Model.{NormalizedSpan}
use evald.Key.{SpanKey, span_key, key_eq}
use evald.Hot.{HotTier, segment, drop_segment, all_spans, concat, or_default}
use evald.Index.{Redb, BlockMeta, Index, all_block_paths, commit_flush}
use evald.Index.Consistent.{commit_flush_lem}
use evald.Query.Distinct.{identities, contains-identities-append}
use evald.Flush.{Chrono, Files, Shared, by_partition}
use evald.Flush.Groups.{in_groups, in_groups-by_partition}
use evald.Flush.Written.{targets, Held, Held-target, target-Held}

delete_absent :
    (n : ℕ) (m : Map ℕ (List NormalizedSpan)) → contains (keys m) n ≡ false → delete n m ≡ m
delete_absent n [] h = refl
delete_absent n ((j, v) ∷ m) h = ground (arith, delete_absent n m)

concat-delete :
    (n : ℕ) (m : Map ℕ (List NormalizedSpan)) (k : SpanKey)
    → IsDistinct (keys m)
    → contains (identities (concat (values m))) k ≡ (
        contains (identities (or_default (get n m))) k
        || contains (identities (concat (values (delete n m)))) k)
concat-delete n [] k h = refl
concat-delete n ((j, v) ∷ m) k h = elim (Bool-cases (nat_beq j n)) [
  | inl e ↦
      let gone : delete n m ≡ m = delete_absent n m (ground arith) in
      rw (e, gone) (contains-identities-append v (concat (values m)) k)
  | inr e ↦ rw e (
      contains-identities-append v (concat (values m)) k
      ∙ ground (
        arith,
        concat-delete n m k h.1,
        contains-identities-append v (concat (values (delete n m))) k,
      ))
]

-- A resident identity is in the given segment or in the rest of the tier.
pub contains-drop_segment :
    (hot : HotTier) (seqno : ℕ) (k : SpanKey)
    → IsDistinct (keys hot.segments)
    → contains (identities (all_spans hot)) k ≡ (
        contains (identities (or_default (segment hot seqno))) k
        || contains (identities (all_spans (drop_segment hot seqno))) k)
unfolding all_spans segment drop_segment
contains-drop_segment hot seqno k h = concat-delete seqno hot.segments k h

module _ (redb : Redb) (chrono : Chrono) where
  -- An identity in a block that the index holds.
  abbrev pub InCold : Index redb → Files → SpanKey → Type 0
  InCold index files k =
      (p : Text) × (contains (all_block_paths redb index) p ≡ true)
      × (contains (identities (or_default (get p files))) k ≡ true)

  -- An identity in either tier.
  abbrev pub Stored : Shared redb chrono → SpanKey → Type 0
  Stored st k = (contains (identities (all_spans st.hot)) k ≡ true) ⊎ InCold st.index st.files k

  -- The groups that a segment's spans are written in, and the paths of their blocks.
  abbrev pub groups_of : List NormalizedSpan → Map Text (List NormalizedSpan)
  groups_of spans = by_partition chrono [] (first_copies span_key [] spans)

  abbrev pub paths_of : Shared redb chrono → ℕ → List Text
  paths_of st seqno = targets seqno 0 (groups_of (or_default (segment st.hot seqno)))

  -- The paths are new: they are distinct, and the index holds none of them.
  abbrev pub IsFresh : Index redb → List Text → Type 0
  IsFresh index paths =
      IsDistinct paths
      × ((p : Text) → contains paths p ≡ true → contains (all_block_paths redb index) p ≡ false)

  -- Files that differ only at new paths hold the same cold identities.
  pub InCold-files :
      (index : Index redb) (files files' : Files) (paths : List Text) (k : SpanKey)
      → IsFresh index paths
      → ((p : Text) → contains paths p ≡ false → get p files' ≡ get p files)
      → InCold index files k ↔ InCold index files' k
  InCold-files index files files' paths k fresh same = (forth, back)
    where
      untouched :
          (p : Text) → contains (all_block_paths redb index) p ≡ true → get p files' ≡ get p files
      untouched p held = same p (ground (arith, fresh.1 p))

      forth : InCold index files k → InCold index files' k
      forth (p, held, found) = (p, held, rw (untouched p held) found)

      back : InCold index files' k → InCold index files k
      back (p, held, found) = (p, held, rw (sym (untouched p held)) found)

  in_groups-groups_of :
      (spans : List NormalizedSpan) (k : SpanKey)
      → in_groups k (groups_of spans) ≡ contains (identities spans) k
  in_groups-groups_of spans k =
      in_groups-by_partition chrono [] (first_copies span_key [] spans) k
      ∙ contains-first_copies span_key [] spans k

  pub any_path :
      (blocks : List BlockMeta) (rel : Text)
      → any (λ (b : BlockMeta). text_beq b.rel_path rel) blocks
        ≡ contains (map (λ (b : BlockMeta). b.rel_path) blocks) rel
  any_path [] rel = refl
  any_path (b ∷ blocks) rel = ground (arith, any_path blocks rel)

  -- After the commit the cold tier holds what it held and the spans of the segment.
  pub InCold-commit_flush :
      (index : Index redb) (files files' : Files) (seqno : ℕ) (spans : List NormalizedSpan)
      (blocks : List BlockMeta) (k : SpanKey)
      → IsFresh index (targets seqno 0 (groups_of spans))
      → ((p : Text)
          → contains (targets seqno 0 (groups_of spans)) p ≡ false
          → get p files' ≡ get p files)
      → map (λ (b : BlockMeta). b.rel_path) blocks ≡ targets seqno 0 (groups_of spans)
      → Held files' seqno 0 (groups_of spans)
      → (InCold index files k ⊎ (contains (identities spans) k ≡ true))
        ↔ InCold (commit_flush redb index seqno blocks none).1 files' k
  InCold-commit_flush index files files' seqno spans blocks k fresh same named held = (forth, back)
    where
      index' : Index redb
      index' = (commit_flush redb index seqno blocks none).1

      paths : List Text
      paths = targets seqno 0 (groups_of spans)

      listing :
          (p : Text)
          → contains (all_block_paths redb index') p
            ≡ (contains paths p || contains (all_block_paths redb index) p)
      listing p =
          (commit_flush_lem redb index seqno blocks p p).1
          ∙ ap (λ (b : Bool). b || contains (all_block_paths redb index) p)
              (any_path blocks p ∙ ap (λ (l : List Text). contains l p) named)

      forth : InCold index files k ⊎ (contains (identities spans) k ≡ true) → InCold index' files' k
      forth (inl (p, old, found)) =
          (p, ground (arith, listing p), rw (same p (ground (arith, fresh.1 p))) found)
      forth (inr flushed) =
          let (p, new, found) =
            Held-target (groups_of spans) files' seqno 0 k held
              (in_groups-groups_of spans k ∙ flushed) in
          (p, ground (arith, listing p), found)

      back : InCold index' files' k → InCold index files k ⊎ (contains (identities spans) k ≡ true)
      back (p, listed, found) = elim (Bool-cases (contains paths p)) [
        | inl new ↦ inr (
            sym (in_groups-groups_of spans k)
            ∙ target-Held (groups_of spans) files' seqno 0 k p held new found)
        | inr old ↦ inl (p, ground (arith, listing p), rw (sym (same p old)) found)
      ]
