-- ===== src/Price/Examples.antt =====
-- A table with one model, and a span of that model with cached and reasoning tokens.
use evald.Prelude.{
  ◌+◌, ◌*◌, ◌/◌, ◌≡◌, ◌≢◌, ◌⊎◌, inr, refl, true, false, none, some, [], ◌∷◌, Text, bytes,
  to_ascii_lowercase, arith,
}
use evald.Prelude.Options.{or_else}
use evald.Model.{NormalizedSpan, Tokens, no_tokens}
use evald.Model.Examples.{test_span}
use evald.Model.Json.{number, string}
use evald.Price.{Rates, Tier, Price, PriceTable, get_key_value, lookup_loop, lookup, rates_for}
use evald.Price.Parts.{Prices}
use evald.Price.Lookup.{Denotes, lookup_lem}
use evald.Price.Rounds.{lookup-lookup_loop}
use evald.Price.Parts.{date, region}
use evald.Price.Shapes.{
  IsNameFor, shaped, behind, no_providers, versioned, unversioned, snapshot, lookup-found,
}
use evald.Price.Basis.{Basis, Float, charge, detect_basis, from_stamp}
use evald.Price.Basis.Charged.{beside_cache, all_charged, charge-detect_basis}
use evald.Price.Derive.{Derived, derive, apply, has_cost_attribute}
use evald.Price.Derive.Applied.{recorded_basis, AgreeBut, apply_lem}

-- Whole numbers in place of floating point.
abbrev pub whole : Float
whole = record {
  nought = 0;
  add = λ a b. a + b;
  mul = λ a b. a * b;
  div = λ a b. a / b;
  round = λ a. a;
  of_count = λ n. n;
  trillion = 10;
}

abbrev pub sonnet : Price
sonnet = record {
  base = record { input = 3; output = 15; cache_read = some 1; cache_write = none };
  reasoning = none;
  tiers =
      record { above = 200; input = some 6; output = none; cache_read = none; cache_write = none }
      ∷ [];
}

abbrev pub sonnet_table : PriceTable
sonnet_table = record {
  version = bytes "v";
  as_of = none;
  models = (bytes "sonnet-4", sonnet) ∷ [];
}

abbrev pub bedrock_id : Text
bedrock_id = bytes "aws/us.Sonnet-4-2025@x"

abbrev pub counts : Tokens
counts = record no_tokens {
  prompt = some 5;
  completion = some 10;
  cache_read = some 7;
  reasoning = some 4;
}

-- It reports its cached tokens beside the prompt, and a stranger's basis.
abbrev pub sonnet_span : NormalizedSpan
sonnet_span = record (test_span (bytes "t") (bytes "s") 1) {
  model = some bedrock_id;
  tokens = counts;
  raw_attributes =
      (bytes "evald.cost.basis", string (bytes "reasoning_add"))
      ∷ (bytes "gen_ai.usage.total_tokens", number (bytes "22"))
      ∷ [];
}

found : lookup sonnet_table bedrock_id ≡ some (bytes "sonnet-4", sonnet)
unfolding lookup
found = refl

lookup_lem_example :
    Prices sonnet_table (bytes "sonnet-4") sonnet
    × ((bytes "sonnet-4" ≡ bedrock_id) ⊎ Denotes (to_ascii_lowercase bedrock_id) (bytes "sonnet-4"))
lookup_lem_example = lookup_lem sonnet_table bedrock_id (bytes "sonnet-4") sonnet found

sonnet-IsNameFor : IsNameFor (to_ascii_lowercase bedrock_id) (bytes "sonnet-4")
sonnet-IsNameFor =
    shaped (bytes "aws/") (bytes "us.") (bytes "sonnet-4-2025") (bytes "@x") (bytes "sonnet-4")
      (behind (bytes "aws") [] (refl, (refl, (refl, tt))) no_providers) (region (bytes "us.") refl)
      (versioned 3 (bytes "sonnet-4") (bytes "2025") (bytes "sonnet-4")
        (unversioned 3 (bytes "sonnet-4"))
        (snapshot (bytes "2025") (refl, (refl, (refl, (refl, tt)))) (omega arith)))
      (date (bytes "x"))
      (
        refl,
        (
          refl,
          (
            refl,
            (
              refl,
              (
                refl,
                (
                  refl,
                  (
                    refl,
                    (refl, (refl, (refl, (refl, (refl, (refl, (refl, (refl, (refl, tt))))))))),
                  ),
                ),
              ),
            ),
          ),
        ),
      )
      (omega arith)

lookup-found_example : lookup sonnet_table bedrock_id ≢ none
lookup-found_example =
    lookup-found sonnet_table bedrock_id (bytes "sonnet-4") sonnet (inr sonnet-IsNameFor) refl

any_bound_finds :
    lookup sonnet_table bedrock_id
    ≡ or_else
        (get_key_value sonnet_table bedrock_id)
        (lookup_loop 40 sonnet_table (to_ascii_lowercase bedrock_id))
any_bound_finds = lookup-lookup_loop sonnet_table bedrock_id 40 (omega arith)

charge-detect_basis_example : all_charged (charge counts (detect_basis counts (some 22))) ≡ 22
charge-detect_basis_example =
    charge-detect_basis counts 22 (omega arith) (beside_cache (omega arith) (omega arith) refl)

abbrev pub sonnet_cost : Derived
sonnet_cost = record {
  cost = 172;
  model = bytes "sonnet-4";
  basis = record { cache_excl = true; reasoning_add = false };
}

pub sonnet-derive : derive whole sonnet_table sonnet_span ≡ some sonnet_cost
unfolding derive lookup evald.Price.Basis.price_tokens detect_basis
    evald.Price.Derive.reported_total rates_for
sonnet-derive = refl

apply_lem_example :
    let out = apply whole sonnet_table sonnet_span in
    (out.cost_usd ≡ some 172)
    × (recorded_basis out.raw_attributes ≡ sonnet_cost.basis)
    × AgreeBut out sonnet_span
    × (has_cost_attribute out ≡ false)
    × ((other : PriceTable) → apply whole other out ≡ out)
apply_lem_example = apply_lem whole sonnet_table sonnet_span sonnet_cost sonnet-derive
