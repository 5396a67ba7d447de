-- ===== src/Calls.antt =====
-- src/calls.rs: the ledger of calls that were stored, by which the second description of a call is
-- dropped. The lock is the sequence of the calls.
pub mod Once
pub mod Remembered
pub mod Examples
use evald.Prelude.{
  ℕ, zero, suc, ◌+◌, ◌-◌, ◌%◌, ◌^◌, Bool, true, false, ◌&&◌, ◌||◌, not, any, Option, none, some,
  List, [], ◌∷◌, ◌++◌, Text, text_eq, bytes, starts_with, contains, insert, remove, length, ltb,
  if◌then◌else◌,
}
use evald.Prelude.Maps.{get, text_less}
use evald.Model.{NormalizedSpan}
use evald.Model.Json.{Value, as_str}

abbrev pub call_key : Text
call_key = bytes "evald.call_key"

abbrev pub call_anchor : Text
call_anchor = bytes "evald.call_anchor"

abbrev pub capacity_default : ℕ
capacity_default = 16384

-- `Recent` and the fields of `CallLedger` around it.
pub record CallLedger : Type 0 where
  pub set : List Text
  pub order : List Text
  pub capacity : ℕ
  pub dropped : ℕ

abbrev pub at_least_one : ℕ → ℕ
at_least_one zero = 1
at_least_one (suc n) = suc n

unfoldable pub with_capacity : ℕ → CallLedger
with_capacity capacity = record {
  set = [];
  order = [];
  capacity = at_least_one capacity;
  dropped = 0;
}

unfoldable pub may_carry_keys : List NormalizedSpan → Bool
may_carry_keys = any λ s. starts_with s.name (bytes "claude_code.")

-- What a span says of its call: an anchor is looked up first.
pub data Named : Type 0 where
  anchors calls : Text → Named
  unnamed : Named

abbrev pub str_of : Option Value → Option Text
str_of none = none
str_of (some v) = as_str v

abbrev pub name_of : Option Text → Option Text → Named
name_of (some anchor) key = anchors anchor
name_of none (some key) = calls key
name_of none none = unnamed

unfoldable pub named : NormalizedSpan → Named
named s =
    name_of (str_of (get call_anchor s.raw_attributes)) (str_of (get call_key s.raw_attributes))

-- What a batch comes to: the spans that are retained, the keys, and the spans dropped.
pub record Filtered : Type 0 where
  pub kept : List NormalizedSpan
  pub keys : List Text
  pub dropped : ℕ

abbrev pub retains : NormalizedSpan → List Text → Filtered → Filtered
retains s keys later = record {
  kept = s ∷ later.kept;
  keys = keys ++ later.keys;
  dropped = later.dropped;
}

-- The keys that one span adds to `keys` and to `in_batch`.
abbrev pub new_keys : List Text → List Text → Named → List Text
new_keys recent in_batch (anchors k) = if contains in_batch k then [] else k ∷ []
new_keys recent in_batch (calls k) = if contains recent k || contains in_batch k then [] else k ∷ []
new_keys recent in_batch unnamed = []

abbrev pub is_copy : List Text → List Text → Named → Bool
is_copy recent in_batch (anchors k) = false
is_copy recent in_batch (calls k) = contains recent k || contains in_batch k
is_copy recent in_batch unnamed = false

abbrev pub drops : Filtered → Filtered
drops later = record { kept = later.kept; keys = later.keys; dropped = later.dropped + 1 }

-- The closure of `retain` over the spans.
unfoldable pub retain_each : List Text → List Text → List NormalizedSpan → Filtered
retain_each recent in_batch [] = record { kept = []; keys = []; dropped = 0 }
retain_each recent in_batch (s ∷ rest) =
    let keys = new_keys recent in_batch (named s) in
    let later = retain_each recent (keys ++ in_batch) rest in
    if is_copy recent in_batch (named s) then drops later else retains s keys later

-- `filter`: the spans it leaves, the keys it returns, and the ledger behind it.
unfoldable pub filter :
    CallLedger → List NormalizedSpan → List NormalizedSpan × List Text × CallLedger
unfolding retain_each
filter ledger spans =
    let f = retain_each ledger.set [] spans in
    (
      f.kept,
      f.keys,
      record {
        set = ledger.set;
        order = ledger.order;
        capacity = ledger.capacity;
        dropped = (ledger.dropped + f.dropped) % 2 ^ 64;
      },
    )

-- The loop of `remember` over the keys.
abbrev pub remember_each : List Text → List Text → List Text → List Text × List Text
remember_each set order [] = (set, order)
remember_each set order (k ∷ rest) =
    remember_each (insert k set) (if contains set k then order else order ++ k ∷ []) rest

-- The loop that forgets: `excess` is how many keys the queue is above its capacity.
abbrev pub forget : ℕ → List Text → List Text → List Text × List Text
forget zero set order = (set, order)
forget (suc excess) set [] = (set, [])
forget (suc excess) set (old ∷ order) = forget excess (remove old set) order

abbrev remembered : CallLedger → List Text × List Text → CallLedger
remembered ledger r =
    let done = forget (length r.1 - ledger.capacity) r.0 r.1 in
    record { set = done.0; order = done.1; capacity = ledger.capacity; dropped = ledger.dropped }

unfoldable pub remember : CallLedger → List Text → CallLedger
remember ledger [] = ledger
remember ledger (k ∷ rest) = remembered ledger (remember_each ledger.set ledger.order (k ∷ rest))
