-- ===== src/Merge.antt =====
-- src/store/merge.rs: which cold blocks are merged. The calendar day and the clock are arguments, and what
-- a block's footer and its file's metadata say is a `Footer`.
pub mod Plan
pub mod Chunks
pub mod Tiers
pub mod Inputs
pub mod Pass
pub mod Cold
pub mod Swap
pub mod Effects
pub mod Keeps
pub mod Committed
pub mod Overwrite
pub mod Along
pub mod Always
pub mod Runs
pub mod Kept
pub mod Grace
pub mod Names
pub mod Examples
use evald.Prelude.{
  ℕ, zero, suc, ◌+◌, ◌-◌, ◌/◌, ◌^◌, max, Bool, true, false, ◌&&◌, ◌||◌, not, Option, none, some,
  List, [], ◌∷◌, ◌++◌, Text, bytes, text_beq, text_eq, nat_eq, strip_prefix, split, join, ends_with,
  length, take, all, ltb, leb, nat_beq, if◌then◌else◌,
}
use evald.Prelude.Decimal.{is_ascii_digit}
use evald.Prelude.Io.{ErrorKind, Result, ok, err}
use evald.Prelude.Maps.{Map, text_less, nat_less, text_ltb, get, put}
use evald.Model.{NormalizedSpan}
use evald.Index.{Redb, Index, blocks_with_max_start}
use evald.Flush.{Files}
use evald.Retention.{saturating_add}

-- Durations and times are counted in one unit.
pub record MergePolicy : Type 0 where
  pub hour_threshold : ℕ
  pub max_spans_per_block : ℕ
  pub day_merge : Bool
  pub day_quiet : ℕ
  pub unlink_grace : ℕ

-- The default, in seconds.
abbrev pub default_policy : MergePolicy
default_policy = record {
  hour_threshold = 16;
  max_spans_per_block = 1000000;
  day_merge = true;
  day_quiet = 3600;
  unlink_grace = 60;
}

unfoldable pub enabled : MergePolicy → Bool
enabled policy = ltb 0 policy.hour_threshold

pub data MergeScope : Type 0 where
  tick full : MergeScope

pub record MergeReport : Type 0 where
  pub merges : ℕ
  pub blocks_in : ℕ
  pub blocks_out : ℕ
  pub spans : ℕ
  pub bytes_in : ℕ
  pub bytes_out : ℕ
  pub dry_run : Bool

unfoldable pub is_noop : MergeReport → Bool
is_noop report = nat_beq report.merges 0

pub record Footer : Type 0 where
  pub bytes : ℕ
  pub modified : Option ℕ
  pub seqno_lo : ℕ
  pub seqno_hi : ℕ
  pub price_tables : List Text

-- The path below the data directory stands for `abs` too.
pub record Candidate : Type 0 where
  pub rel : Text
  pub rows : ℕ
  pub bytes : ℕ
  pub modified : Option ℕ
  pub seqno_lo : ℕ
  pub seqno_hi : ℕ
  pub price_tables : List Text

pub data Slot : Type 0 where
  hour_slot : (hour day : Text) → Slot
  day_slot : (day : Text) → Slot

unfoldable pub numeric : Text → Bool
numeric s = leb 2 (length s) && all is_ascii_digit s

-- `match parts.len()`
unfoldable pub slot_of_parts : List Text → Option Slot
unfolding numeric
slot_of_parts (root ∷ y ∷ m ∷ d ∷ h ∷ file ∷ []) =
    if numeric y && numeric m && numeric d && numeric h
    then some (
        hour_slot (join (root ∷ y ∷ m ∷ d ∷ h ∷ []) (bytes "/"))
          (join (root ∷ y ∷ m ∷ d ∷ []) (bytes "/")))
    else none
slot_of_parts (root ∷ y ∷ m ∷ d ∷ file ∷ []) =
    if numeric y && numeric m && numeric d
    then some (day_slot (join (root ∷ y ∷ m ∷ d ∷ []) (bytes "/")))
    else none
slot_of_parts _ = none

abbrev is_first : List Text → Text → Bool
is_first [] s = false
is_first (part ∷ parts) s = text_beq part s

unfoldable pub slot_of : Text → Option Slot
unfolding slot_of_parts
slot_of rel =
    if is_first (split rel b'/') (bytes "blocks") && ends_with rel (bytes ".parquet")
    then slot_of_parts (split rel b'/')
    else none

abbrev is_before : Option Text → Text → Bool
is_before none today = false
is_before (some d) today = text_ltb d today

unfoldable pub day_is_closed : Text → Text → Bool
day_is_closed day_dir today = is_before (strip_prefix day_dir (bytes "blocks/")) today

abbrev pub Grouped : Type 0
Grouped = Map Text (List Text)

-- `map.entry(key).or_default().push(x)`
abbrev pub entries {ℓ} : {A : Type ℓ} → Option (List A) → List A
entries none = []
entries (some l) = l

abbrev pub push_entry : Text → Text → Grouped → Grouped
push_entry key rel groups = put key (entries (get key groups) ++ rel ∷ []) groups

abbrev pub group_one : Text → Grouped × Grouped → Option Slot → Grouped × Grouped
group_one rel (hours, days) none = (hours, days)
group_one rel (hours, days) (some (hour_slot hour day)) =
    (push_entry hour rel hours, push_entry day rel days)
group_one rel (hours, days) (some (day_slot day)) = (hours, push_entry day rel days)

unfoldable pub group_each : Grouped × Grouped → List (Text × ℕ) → Grouped × Grouped
unfolding slot_of
group_each groups [] = groups
group_each groups ((rel, max_start) ∷ rest) = group_each (group_one rel groups (slot_of rel)) rest

unfoldable pub group : (redb : Redb) → Index redb → Grouped × Grouped
unfolding group_each
group redb index = group_each ([], []) (blocks_with_max_start redb index)
