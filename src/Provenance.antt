-- ===== src/Provenance.antt =====
-- The provenance of a block, src/store/cold.rs: what its footer and its file name say of the log
-- segments whose spans it holds. serde_json and the version of the build are parameters.
pub mod Declared
pub mod Names
pub mod Examples
use evald.Prelude.{
  ℕ, ◌≡◌, Bool, true, false, Option, none, some, List, [], ◌∷◌, ◌++◌, Text, bytes, text_beq,
  strip_prefix, split, if◌then◌else◌,
}
use evald.Prelude.Options.{◌>>=◌, or_else}
use evald.Prelude.Decimal.{decimal, parse_u64}

pub data BlockKind : Type 0 where
  flush merged : BlockKind

unfoldable pub kind_as_str : BlockKind → Text
kind_as_str flush = bytes "flush"
kind_as_str merged = bytes "merged"

pub record Provenance : Type 0 where
  pub kind : BlockKind
  pub seqno_lo : ℕ
  pub seqno_hi : ℕ
  pub merged_from : List Text
  pub price_tables : List Text
  pub declared : Bool

-- `Provenance::flush`
unfoldable pub provenance_flush : ℕ → Provenance
provenance_flush seqno = record {
  kind = flush;
  seqno_lo = seqno;
  seqno_hi = seqno;
  merged_from = [];
  price_tables = [];
  declared = true;
}

-- `Provenance::merged`
unfoldable pub provenance_merged : ℕ → ℕ → List Text → Provenance
provenance_merged seqno_lo seqno_hi merged_from = record {
  kind = merged;
  seqno_lo = seqno_lo;
  seqno_hi = seqno_hi;
  merged_from = merged_from;
  price_tables = [];
  declared = true;
}

unfoldable pub with_price_tables : Provenance → List Text → Provenance
with_price_tables p versions = record p { price_tables = versions }

pub record KeyValue : Type 0 where
  pub key : Text
  pub value : Option Text

-- serde_json on a `Vec<String>`: what it writes is read back.
pub record Strings : Type 0 where
  pub to_string : List Text → Text
  pub from_str : Text → Option (List Text)
  pub from_str-to_string : (l : List Text) → from_str (to_string l) ≡ some l

abbrev pub some_value : Text → Text → KeyValue
some_value key value = record { key = key; value = some value }

-- `get`: the value of the first entry with the key.
abbrev pub find_value : List KeyValue → Text → Option Text
find_value [] key = none
find_value (e ∷ rest) key = if text_beq e.key key then e.value else find_value rest key

abbrev pub get_value : Option (List KeyValue) → Text → Option Text
get_value none key = none
get_value (some kv) key = find_value kv key

-- `match get(META_BLOCK_KIND)`
unfoldable pub parse_kind : Text → Option BlockKind
parse_kind s =
    if text_beq s (bytes "merged")
    then some merged
    else if text_beq s (bytes "flush")
    then some flush
    else none

-- `it.next().and_then(parse)`, twice.
unfoldable pub parse_range : List Text → Option (ℕ × ℕ)
parse_range [] = none
parse_range (a ∷ []) = none
parse_range (a ∷ b ∷ rest) = do lo ← parse_u64 a; hi ← parse_u64 b; some (lo, hi)

abbrev first_number : List Text → Option ℕ
first_number [] = none
first_number (a ∷ rest) = parse_u64 a

abbrev or_seqno_zero : Option ℕ → BlockKind × ℕ × ℕ
or_seqno_zero none = (flush, 0, 0)
or_seqno_zero (some seqno) = (flush, seqno, seqno)

abbrev or_first_number : Text → Option (ℕ × ℕ) → BlockKind × ℕ × ℕ
or_first_number stem none = or_seqno_zero (first_number (split stem b'-'))
or_first_number stem (some (lo, hi)) = (merged, lo, hi)

unfoldable pub stem_range : Text → BlockKind × ℕ × ℕ
unfolding parse_range
stem_range stem = or_first_number stem (do
  rest ← or_else (strip_prefix stem (bytes "merged-")) (strip_prefix stem (bytes "day-"))
  parse_range (split rest b'-'))

-- `declared`
unfoldable pub declared_range : Option (List KeyValue) → Option (BlockKind × ℕ × ℕ)
unfolding parse_kind
declared_range kv = do
  kind_text ← get_value kv (bytes "evald.block_kind")
  kind ← parse_kind kind_text
  lo_text ← get_value kv (bytes "evald.seqno_lo")
  hi_text ← get_value kv (bytes "evald.seqno_hi")
  lo ← parse_u64 lo_text
  hi ← parse_u64 hi_text
  some (kind, lo, hi)

-- A legacy block.
abbrev from_stem : BlockKind × ℕ × ℕ → Provenance
from_stem (kind, lo, hi) = record {
  kind = kind;
  seqno_lo = lo;
  seqno_hi = hi;
  merged_from = [];
  price_tables = [];
  declared = false;
}

abbrev or_nil : Option (List Text) → List Text
or_nil none = []
or_nil (some l) = l

module _ (json : Strings) (version : Text) where
  abbrev merged_pair : Provenance → BlockKind → List KeyValue
  merged_pair p flush = []
  merged_pair p merged = some_value (bytes "evald.merged_from") (json.to_string p.merged_from) ∷ []

  abbrev price_pair : List Text → List KeyValue
  price_pair [] = []
  price_pair (v ∷ versions) =
      some_value (bytes "evald.price_tables") (json.to_string (v ∷ versions)) ∷ []

  unfoldable pub key_value_metadata : Provenance → List KeyValue
  unfolding kind_as_str
  key_value_metadata p =
      some_value (bytes "evald.format") (decimal 1)
      ∷ some_value (bytes "evald.block_kind") (kind_as_str p.kind)
      ∷ some_value (bytes "evald.seqno_lo") (decimal p.seqno_lo)
      ∷ some_value (bytes "evald.seqno_hi") (decimal p.seqno_hi)
      ∷ some_value (bytes "evald.writer") version
      ∷ (merged_pair p p.kind ++ price_pair p.price_tables)

  abbrev strings_at : Option (List KeyValue) → Text → List Text
  strings_at kv key = or_nil (do text ← get_value kv key; json.from_str text)

  abbrev or_stem : Option (List KeyValue) → Text → Option (BlockKind × ℕ × ℕ) → Provenance
  or_stem kv stem none = from_stem (stem_range stem)
  or_stem kv stem (some (kind, lo, hi)) = record {
    kind = kind;
    seqno_lo = lo;
    seqno_hi = hi;
    merged_from = strings_at kv (bytes "evald.merged_from");
    price_tables = strings_at kv (bytes "evald.price_tables");
    declared = true;
  }

  unfoldable pub from_key_values : Option (List KeyValue) → Text → Provenance
  unfolding declared_range stem_range
  from_key_values kv stem = or_stem kv stem (declared_range kv)
