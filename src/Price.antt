-- ===== src/Price.antt =====
-- Model prices, src/price.rs: the rates of a model and how a span's model id finds them.
pub mod Basis
pub mod Derive
pub mod Examples
pub mod Lookup
pub mod Parts
pub mod Rounds
pub mod Shapes
pub mod Tried
use evald.Prelude.{
  ℕ, zero, suc, ◌+◌, ◌≡◌, Bool, true, false, not, ◌&&◌, ◌||◌, Option, none, some, List, [], ◌∷◌,
  ◌++◌, Text, bytes, text_beq, text_eq, strip_prefix, split, split_once, rsplit_once,
  to_ascii_lowercase, if◌then◌else◌, ltb, length, all_bytes, leb,
}
use evald.Prelude.Options.{◌>>=◌, unwrap_or, or_else}
use evald.Prelude.Decimal.{is_ascii_digit}
use evald.Prelude.Maps.{Map, get}
use evald.Model.{F64}

pub record Rates : Type 0 where
  pub input : F64
  pub output : F64
  pub cache_read : Option F64
  pub cache_write : Option F64

pub record Tier : Type 0 where
  pub above : ℕ
  pub input : Option F64
  pub output : Option F64
  pub cache_read : Option F64
  pub cache_write : Option F64

pub record Price : Type 0 where
  pub base : Rates
  pub reasoning : Option F64
  pub tiers : List Tier

-- A tier that omits a field leaves the rate in place.
unfoldable pub overlay : Tier → Rates → Rates
overlay t r = record {
  input = unwrap_or t.input r.input;
  output = unwrap_or t.output r.output;
  cache_read = or_else t.cache_read r.cache_read;
  cache_write = or_else t.cache_write r.cache_write;
}

unfoldable pub rates_loop : List Tier → ℕ → Rates → Rates
rates_loop [] total_in r = r
rates_loop (t ∷ tiers) total_in r =
    rates_loop tiers total_in (if ltb t.above total_in then overlay t r else r)

unfoldable pub rates_for : Price → ℕ → Rates
unfolding rates_loop
rates_for p total_in = rates_loop p.tiers total_in p.base

-- `as_of` counts days.
pub record PriceTable : Type 0 where
  pub version : Text
  pub as_of : Option ℕ
  pub models : Map Text Price

abbrev pub keyed : Text → Option Price → Option (Text × Price)
keyed k none = none
keyed k (some price) = some (k, price)

unfoldable pub get_key_value : PriceTable → Text → Option (Text × Price)
get_key_value table model = keyed model (get model table.models)

-- The region prefixes of Bedrock's inference ids
abbrev pub regions : List Text
regions =
    bytes "us-gov."
    ∷ bytes "us."
    ∷ bytes "eu."
    ∷ bytes "apac."
    ∷ bytes "global."
    ∷ bytes "au."
    ∷ bytes "jp."
    ∷ bytes "ca."
    ∷ []

unfoldable pub strip_first : List Text → Text → Text
strip_first [] name = name
strip_first (p ∷ ps) name = unwrap_or (strip_prefix name p) (strip_first ps name)

unfoldable pub strip_region : Text → Text
unfolding strip_first
strip_region name = strip_first regions name

unfoldable pub is_version_number : Option Text → Bool
is_version_number none = false
is_version_number (some []) = false
is_version_number (some (c ∷ rest)) =
    let (major, minor) = unwrap_or (split_once (c ∷ rest) b':') (c ∷ rest, bytes "0") in
    all_bytes is_ascii_digit major && not (text_beq minor []) && all_bytes is_ascii_digit minor

unfoldable pub is_version_segment : Text → Bool
unfolding is_version_number
is_version_segment seg =
    if text_beq seg (bytes "latest")
    then true
    else if leb 2 (length seg) && all_bytes is_ascii_digit seg
    then true
    else is_version_number (strip_prefix seg (bytes "v"))

-- What a round of `lookup_stripping_versions` goes on with.
unfoldable pub cut_version : Text → Option Text
unfolding is_version_segment
cut_version cur = do
  (head, seg) ← rsplit_once cur b'-'
  if is_version_segment seg && not (text_beq head []) then some head else none

unfoldable pub strip_loop : ℕ → PriceTable → Text → Option (Text × Price)
unfolding get_key_value cut_version
strip_loop zero table cur = none
strip_loop (suc rounds) table cur =
    or_else (get_key_value table cur) (cut_version cur >>= λ head. strip_loop rounds table head)

unfoldable pub lookup_stripping_versions : PriceTable → Text → Option (Text × Price)
unfolding strip_loop
lookup_stripping_versions table name = strip_loop 5 table name

unfoldable pub before_date : Text → List Text → Text
before_date rest [] = rest
before_date rest (base ∷ parts) = base

-- Both variants of one round of `lookup`
unfoldable pub lookup_variants : PriceTable → Text → Option (Text × Price)
unfolding lookup_stripping_versions strip_region
lookup_variants table base =
    or_else (lookup_stripping_versions table base)
      (lookup_stripping_versions table (strip_region base))

unfoldable pub next_segment : Text → Option Text
next_segment rest = do
  (head, tail) ← split_once rest b'/'
  if text_beq tail [] then none else some tail

unfoldable pub lookup_loop : ℕ → PriceTable → Text → Option (Text × Price)
unfolding before_date lookup_variants next_segment
lookup_loop zero table rest = none
lookup_loop (suc fuel) table rest =
    or_else (lookup_variants table (before_date rest (split rest b'@')))
      (next_segment rest >>= λ tail. lookup_loop fuel table tail)

-- Every round drops at least a byte of the name.
unfoldable pub lookup : PriceTable → Text → Option (Text × Price)
unfolding get_key_value lookup_loop
lookup table model =
    let lower = to_ascii_lowercase model in
    or_else (get_key_value table model) (lookup_loop (suc (length lower)) table lower)
