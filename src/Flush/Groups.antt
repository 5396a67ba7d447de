-- ===== src/Flush/Groups.antt =====
-- Splitting a segment by partition.
use evald.Prelude.{
  ◌≡◌, ◌∙◌, Bool, true, ◌||◌, any, List, [], ◌∷◌, ◌++◌, Text, text_eq, contains, ◌==◌, arith,
}
use evald.Prelude.Maps.{Map, text_less, get, put}
use evald.Model.{NormalizedSpan}
use evald.Key.{SpanKey, span_key, key_eq}
use evald.Hot.{or_default}
use evald.Query.Distinct.{identities, contains-identities-append}
use evald.Flush.{Chrono, partition_of, by_partition}

-- Whether some group holds an identity.
abbrev pub in_groups : SpanKey → Map Text (List NormalizedSpan) → Bool
in_groups k groups = any (λ (g : Text × List NormalizedSpan). contains (identities g.1) k) groups

in_groups-get :
    (p : Text) (k : SpanKey) (groups : Map Text (List NormalizedSpan))
    → contains (identities (or_default (get p groups))) k ≡ true
    → in_groups k groups ≡ true
in_groups-get p k [] h = h
in_groups-get p k ((q, v) ∷ groups) h = ground (arith, in_groups-get p k groups)

in_groups-put :
    (p : Text) (k : SpanKey) (more : Bool) (w : List NormalizedSpan)
    (groups : Map Text (List NormalizedSpan))
    → contains (identities w) k ≡ (contains (identities (or_default (get p groups))) k || more)
    → in_groups k (put p w groups) ≡ (more || in_groups k groups)
in_groups-put p k more w [] h = ground arith
in_groups-put p k more w ((q, v) ∷ groups) h =
    ground (arith, in_groups-put p k more w groups, in_groups-get p k groups)

pub in_groups-by_partition :
    (chrono : Chrono) (groups : Map Text (List NormalizedSpan)) (spans : List NormalizedSpan)
    (k : SpanKey)
    → in_groups k (by_partition chrono groups spans)
      ≡ (in_groups k groups || contains (identities spans) k)
unfolding by_partition
in_groups-by_partition chrono groups [] k = ground arith
in_groups-by_partition chrono groups (s ∷ spans) k =
    let p = partition_of chrono s.start_unix_nano in
    let held = or_default (get p groups) in
    in_groups-by_partition chrono (put p (held ++ s ∷ []) groups) spans k
    ∙ ground (
      arith,
      in_groups-put p k (span_key s == k) (held ++ s ∷ []) groups
          (contains-identities-append held (s ∷ []) k ∙ ground arith),
    )
