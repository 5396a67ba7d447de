-- ===== src/Price/Basis.antt =====
-- How the token counts of a span are read and charged, src/price.rs. Floating point is a parameter.
pub mod Charged
use evald.Prelude.{
  ℕ, ◌+◌, ◌-◌, ◌%◌, ◌^◌, Bool, true, false, not, ◌&&◌, Option, none, some, List, [], ◌∷◌, Text,
  bytes, nat_beq, contains_str, ltb, leb, if◌then◌else◌,
}
use evald.Prelude.Options.{unwrap_or}
use evald.Model.{F64, Tokens}
use evald.Merge.Inputs.{add_u64}
use evald.Price.{Rates, Price, rates_for}

pub record Basis : Type 0 where
  pub cache_excl : Bool
  pub reasoning_add : Bool

abbrev pub default_basis : Basis
default_basis = record { cache_excl = false; reasoning_add = false }

unfoldable pub stamp_of : Bool → Bool → Option Text
stamp_of false false = none
stamp_of true false = some (bytes "cache_excl")
stamp_of false true = some (bytes "reasoning_add")
stamp_of true true = some (bytes "cache_excl,reasoning_add")

unfoldable pub stamp : Basis → Option Text
unfolding stamp_of
stamp b = stamp_of b.cache_excl b.reasoning_add

unfoldable pub from_stamp : Text → Basis
from_stamp s = record {
  cache_excl = contains_str s (bytes "cache_excl");
  reasoning_add = contains_str s (bytes "reasoning_add");
}

-- Cache tokens cannot be part of an input count smaller than themselves.
unfoldable pub by_size : ℕ → ℕ → Basis
by_size p cache = record { cache_excl = ltb 0 cache && ltb p cache; reasoning_add = false }

-- `extra` is what the reported total has beyond prompt and completion; `or_else` is the fall-through.
unfoldable pub by_extra : ℕ → ℕ → ℕ → Basis → Basis
by_extra extra cache r otherwise =
    if nat_beq extra 0
    then default_basis
    else if not (nat_beq cache r) && ltb 0 cache && nat_beq extra cache
    then record { cache_excl = true; reasoning_add = false }
    else if not (nat_beq cache r) && ltb 0 r && nat_beq extra r
    then record { cache_excl = false; reasoning_add = true }
    else if ltb 0 cache && ltb 0 r && nat_beq extra (add_u64 cache r)
    then record { cache_excl = true; reasoning_add = true }
    else otherwise

unfoldable pub by_total : Option ℕ → ℕ → ℕ → ℕ → ℕ → Basis
unfolding by_extra by_size
by_total none p c cache r = by_size p cache
by_total (some total) p c cache r =
    if leb (add_u64 p c) total
    then by_extra (total - add_u64 p c) cache r (by_size p cache)
    else by_size p cache

unfoldable pub detect_basis : Tokens → Option ℕ → Basis
unfolding by_total
detect_basis t reported =
    by_total reported (unwrap_or t.prompt 0) (unwrap_or t.completion 0)
      (add_u64 (unwrap_or t.cache_read 0) (unwrap_or t.cache_write 0)) (unwrap_or t.reasoning 0)

-- The counts of `price_tokens`: what is charged at which rate, and the input that picks the tier.
pub record Charge : Type 0 where
  pub uncached : ℕ
  pub cr : ℕ
  pub cw : ℕ
  pub text_out : ℕ
  pub reasoning_out : ℕ
  pub total_in : ℕ

unfoldable pub charge : Tokens → Basis → Charge
charge t b =
    let prompt = unwrap_or t.prompt 0 in
    let comp = unwrap_or t.completion 0 in
    let read = unwrap_or t.cache_read 0 in
    let write = unwrap_or t.cache_write 0 in
    let r = unwrap_or t.reasoning 0 in
    record {
      uncached = if b.cache_excl then prompt else prompt - add_u64 read write;
      cr = read;
      cw = write;
      text_out = if b.reasoning_add then comp else comp - r;
      reasoning_out = r;
      total_in = if b.cache_excl then add_u64 (add_u64 prompt read) write else prompt;
    }

-- `f64`: the operations that prices use. `of_count` is `as f64` and `trillion` is 1e12.
pub record Float : Type 0 where
  pub nought : F64
  pub add : F64 → F64 → F64
  pub mul : F64 → F64 → F64
  pub div : F64 → F64 → F64
  pub round : F64 → F64
  pub of_count : ℕ → F64
  pub trillion : F64

unfoldable pub round_usd : Float → F64 → F64
round_usd f usd = f.div (f.round (f.mul usd f.trillion)) f.trillion

unfoldable pub price_charge : Float → Rates → Option F64 → Charge → F64
unfolding round_usd
price_charge f rates reasoning ch =
    let at = λ (count : ℕ) (rate : F64). f.mul (f.of_count count) rate in
    let input = at ch.uncached rates.input in
    let read = at ch.cr (unwrap_or rates.cache_read rates.input) in
    let write = at ch.cw (unwrap_or rates.cache_write rates.input) in
    let text = at ch.text_out rates.output in
    let thought = at ch.reasoning_out (unwrap_or reasoning rates.output) in
    round_usd f (f.add (f.add (f.add (f.add input read) write) text) thought)

unfoldable pub price_tokens : Float → Price → Tokens → Basis → F64
unfolding charge price_charge
price_tokens f p t b =
    let ch = charge t b in price_charge f (rates_for p ch.total_in) p.reasoning ch
