-- ===== src/Price/Derive.antt =====
-- Deriving a span's cost and filling it in, src/price.rs.
pub mod Applied
use evald.Prelude.{
  ℕ, Bool, true, false, not, ◌&&◌, ◌||◌, Option, none, some, List, [], ◌∷◌, Text, bytes, text_eq,
  contains, any, if◌then◌else◌,
}
use evald.Prelude.Options.{◌>>=◌, or_else}
use evald.Prelude.Decimal.{parse_u64}
use evald.Prelude.Maps.{Map, get, put, delete, keys, text_less}
use evald.Model.{F64, NormalizedSpan, is_none}
use evald.Model.Json.{Value, number, string}
use evald.Price.{Price, PriceTable, lookup}
use evald.Price.Basis.{Basis, Float, stamp, detect_basis, price_tokens}

-- `Value::as_u64`: a number written as an integer that 64 bits hold.
abbrev pub as_u64 : Value → Option ℕ
as_u64 (number s) = parse_u64 s
as_u64 _ = none

abbrev pub cost_attributes : List Text
cost_attributes = bytes "llm.cost.total" ∷ bytes "gen_ai.usage.cost" ∷ []

unfoldable pub has_cost_attribute : NormalizedSpan → Bool
has_cost_attribute span = any (λ k. contains (keys span.raw_attributes) k) cost_attributes

unfoldable pub reported_total : NormalizedSpan → Option ℕ
reported_total span =
    or_else (get (bytes "llm.token_count.total") span.raw_attributes >>= as_u64)
      (get (bytes "gen_ai.usage.total_tokens") span.raw_attributes >>= as_u64)

pub record Derived : Type 0 where
  pub cost : F64
  pub model : Text
  pub basis : Basis

-- `derive` behind the lookup
unfoldable pub derive_priced : Float → NormalizedSpan → Text → Price → Option Derived
unfolding has_cost_attribute
derive_priced f span key price =
    if has_cost_attribute span
    then none
    else let basis = detect_basis span.tokens (reported_total span) in
      some (record { cost = price_tokens f price span.tokens basis; model = key; basis = basis })

-- `derive` behind its first test
unfoldable pub derive_free : Float → PriceTable → NormalizedSpan → Option Derived
unfolding derive_priced
derive_free f table span = do
  model ← span.model
  (key, price) ←
      if is_none span.tokens.prompt && is_none span.tokens.completion
      then none
      else lookup table model
  derive_priced f span key price

unfoldable pub derive : Float → PriceTable → NormalizedSpan → Option Derived
unfolding derive_free
derive f table span = if not (is_none span.cost_usd) then none else derive_free f table span

abbrev pub basis_key : Text
basis_key = bytes "evald.cost.basis"

unfoldable pub stamped : Option Text → Map Text Value → Map Text Value
stamped none attributes = delete basis_key attributes
stamped (some s) attributes = put basis_key (string s) (delete basis_key attributes)

unfoldable pub filled : NormalizedSpan → Option Derived → NormalizedSpan
unfolding stamped
filled span none = span
filled span (some d) = record span {
  cost_usd = some d.cost;
  raw_attributes = stamped (stamp d.basis) span.raw_attributes;
}

unfoldable pub apply : Float → PriceTable → NormalizedSpan → NormalizedSpan
unfolding filled
apply f table span = filled span (derive f table span)
