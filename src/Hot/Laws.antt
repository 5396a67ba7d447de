-- ===== src/Hot/Laws.antt =====
-- What the hot tier's operations do to its segments and its size.
use evald.Prelude.{
  nat_eq, ℕ, ◌≡◌, refl, sym, none, some, List, [], ◌∷◌, ◌++◌, length, length-append, arith,
  if◌then◌else◌, nat_beq,
}
use evald.Prelude.Maps.{nat_less, values, get-put, get-delete}
use evald.Model.{NormalizedSpan}
use evald.Hot.{
  HotTier, or_default, concat, sum_lengths, push, drop_segment, segment, all_spans, len,
}

-- A push appends to its own segment and leaves the others.
pub segment-push :
    (hot : HotTier) (seqno n : ℕ) (spans : List NormalizedSpan)
    → segment (push hot seqno spans) n
      ≡ (if nat_beq seqno n then some (or_default (segment hot seqno) ++ spans) else segment hot n)
unfolding segment push
segment-push hot seqno n spans = get-put seqno n _ hot.segments

pub segment-drop_segment :
    (hot : HotTier) (seqno n : ℕ)
    → segment (drop_segment hot seqno) n ≡ (if nat_beq seqno n then none else segment hot n)
unfolding segment drop_segment
segment-drop_segment hot seqno n = get-delete seqno n hot.segments

length-concat : (l : List (List NormalizedSpan)) → length (concat l) ≡ sum_lengths l
length-concat [] = refl
length-concat (xs ∷ l) = omega (arith, length-append xs (concat l), length-concat l)

-- The bound that the writer tests counts exactly the resident spans.
pub len-length : (hot : HotTier) → len hot ≡ length (all_spans hot)
unfolding len all_spans
len-length hot = sym (length-concat (values hot.segments))
