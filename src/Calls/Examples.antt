-- ===== src/Calls/Examples.antt =====
-- A ledger that remembers one call, and a batch that describes it again.
use evald.Prelude.{
  ◌+◌, ◌-◌, ◌%◌, ◌^◌, ◌≡◌, refl, true, false, List, [], ◌∷◌, ◌++◌, Text, if◌then◌else◌, text_eq,
  bytes, contains, IsDistinct, length, arith,
}
use evald.Model.{NormalizedSpan}
use evald.Model.Json.{string}
use evald.Model.Examples.{test_span}
use evald.Calls.{CallLedger, call_key, call_anchor, remember, filter, retain_each, named}
use evald.Calls.Remembered.{IsSound, remember-IsSound}
use evald.Calls.Once.{call_keys, no_copies, repeats, all_described, filter_lem}

abbrev pub small : CallLedger
small = record { set = bytes "k1" ∷ []; order = bytes "k1" ∷ []; capacity = 2; dropped = 0 }

small-IsSound : IsSound small
small-IsSound = record { distinct = (refl, tt); same = λ k. refl; bounded = omega arith }

abbrev more : List Text
more = bytes "k2" ∷ bytes "k3" ∷ []

-- The oldest key is forgotten.
remembers :
    remember small more
    ≡ record { set = bytes "k3" ∷ bytes "k2" ∷ []; order = more; capacity = 2; dropped = 0 }
unfolding remember
remembers = refl

remember-IsSound_example : IsSound (remember small more)
remember-IsSound_example = remember-IsSound small more small-IsSound

abbrev pub describing : Text → Text → NormalizedSpan
describing attribute key = record (test_span (bytes "t1") (bytes "s1") 10) {
  name = bytes "claude_code.api_request";
  raw_attributes = (attribute, string key) ∷ [];
}

abbrev pub batch : List NormalizedSpan
batch =
    describing call_key (bytes "k1")
    ∷ describing call_anchor (bytes "k2")
    ∷ describing call_key (bytes "k2")
    ∷ describing call_key (bytes "k4")
    ∷ []

filters :
    (filter small batch).0
    ≡ describing call_anchor (bytes "k2") ∷ describing call_key (bytes "k4") ∷ []
unfolding filter retain_each named
filters = refl

filter_lem_example :
    ((s : NormalizedSpan)
      → (filter small (batch ++ s ∷ [])).0
        ≡ (filter small batch).0
          ++ (if repeats (small.set ++ all_described batch) (named s) then [] else s ∷ []))
    × IsDistinct (call_keys (filter small batch).0)
    × ((k : Text)
        → contains (call_keys (filter small batch).0) k ≡ true
        → contains small.set k ≡ false)
    × (no_copies (filter small batch).0 ≡ no_copies batch)
    × ((filter small batch).2.dropped
        ≡ (small.dropped + (length batch - length (filter small batch).0)) % 2 ^ 64)
filter_lem_example = filter_lem small batch
