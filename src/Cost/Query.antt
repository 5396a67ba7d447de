-- ===== src/Cost/Query.antt =====
-- What the query of src/cost.rs selects of a stored span. A text is its characters.
pub mod Laws
use evald.Prelude.{
  ℕ, Bool, true, false, not, ◌&&◌, ◌||◌, all, Option, List, [], ◌∷◌, ◌++◌, Text, bytes, nat_beq,
  if◌then◌else◌,
}
use evald.Prelude.Maps.{Map}
use evald.Model.{NormalizedSpan, is_none}
use evald.Model.Json.{Value}
use evald.Price.Derive.{cost_attributes}
use evald.Cost.{Dimension, by_model, by_user, by_session, by_service, by_provider, Row}

abbrev pub any_tail : (Text → Bool) → Text → Bool
any_tail f [] = f []
any_tail f (c ∷ s) = if f (c ∷ s) then true else any_tail f s

abbrev pub one_then : ℕ → (Text → Bool) → Text → Bool
one_then p f [] = false
one_then p f (c ∷ s) = (nat_beq p b'_' || nat_beq p c) && f s

-- SQL's `s LIKE p`, the pattern first: `%` is any text and `_` any character.
abbrev pub like : Text → Text → Bool
like [] [] = true
like [] (c ∷ s) = false
like (p ∷ ps) s = if nat_beq p b'%' then any_tail (like ps) s else one_then p (like ps) s

-- `%"{k}":%`
unfoldable pub reported_pattern : Text → Text
reported_pattern k = bytes "%\"" ++ k ++ bytes "\":%"

-- `%"evald.cost.basis":"%{word}%`
unfoldable pub basis_pattern : Text → Text
basis_pattern word = bytes "%\"evald.cost.basis\":\"%" ++ word ++ bytes "%"

-- `{col} AS attribution`
unfoldable pub attribution_of : Dimension → NormalizedSpan → Option Text
attribution_of by_model span = span.model
attribution_of by_user span = span.user_id
attribution_of by_session span = span.session_id
attribution_of by_service span = span.service_name
attribution_of by_provider span = span.provider

unfoldable pub not_reported : Text → Bool
unfolding reported_pattern
not_reported json = all (λ k. not (like (reported_pattern k) json)) cost_attributes

-- The row of `n` spans that are alike; `json` is their `raw_attributes_json`.
unfoldable pub row_of : Dimension → ℕ → NormalizedSpan → Text → Row
unfolding attribution_of not_reported basis_pattern
row_of by n span json = record {
  attribution = attribution_of by span;
  model = span.model;
  tokens = span.tokens;
  stored = span.cost_usd;
  derived = not (is_none span.cost_usd) && not_reported json;
  cache_excl = like (basis_pattern (bytes "cache_excl")) json;
  reasoning_add = like (basis_pattern (bytes "reasoning_add")) json;
  n = n;
}
