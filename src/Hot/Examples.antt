-- ===== src/Hot/Examples.antt =====
-- A hot tier with two segments.
use evald.Prelude.{◌≡◌, refl, some, [], ◌∷◌, ◌++◌, bytes, length, nat_beq, if◌then◌else◌, none}
use evald.Model.Examples.{test_span}
use evald.Hot.{HotTier, or_default, push, drop_segment, segment, all_spans, len}
use evald.Hot.Laws.{segment-push, segment-drop_segment, len-length}

abbrev pub two_segments : HotTier
two_segments = record {
  segments =
      (0, test_span (bytes "t1") (bytes "s1") 10 ∷ test_span (bytes "t2") (bytes "s2") 30 ∷ [])
      ∷ (1, test_span (bytes "t1") (bytes "s3") 20 ∷ test_span (bytes "t1") (bytes "s1") 10 ∷ [])
      ∷ [];
}

len-four : len two_segments ≡ 4
unfolding len
len-four = refl

len-length_of_two : len two_segments ≡ length (all_spans two_segments)
len-length_of_two = len-length two_segments

segment-push_at_two :
    segment (push two_segments 1 (test_span (bytes "t3") (bytes "s4") 5 ∷ [])) 0 ≡ (
      if nat_beq 1 0
      then some (or_default (segment two_segments 1) ++ test_span (bytes "t3") (bytes "s4") 5 ∷ [])
      else segment two_segments 0)
segment-push_at_two = segment-push two_segments 1 0 (test_span (bytes "t3") (bytes "s4") 5 ∷ [])

segment-drop_segment_of_two :
    segment (drop_segment two_segments 1) 0 ≡ (if nat_beq 1 0 then none else segment two_segments 0)
segment-drop_segment_of_two = segment-drop_segment two_segments 1 0
