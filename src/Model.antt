-- ===== src/Model.antt =====
-- src/model.rs: the normalized span and the score, with the questions asked of them.
pub mod Json
pub mod Laws
pub mod Examples
pub mod Tests
use Json.{Value, json_mentions_tokens}
use evald.Prelude.{
  ℕ, ◌-◌, ◌≡◌, Bool, true, false, ◌&&◌, ◌||◌, not, Option, none, some, List, [], ◌∷◌, ◌++◌, Text,
  bytes, text_beq, starts_with, contains_str, to_ascii_lowercase, eq_ignore_ascii_case, any,
  if◌then◌else◌,
}

-- An `i32` is carried as its 32-bit pattern and an `f64` as its 64-bit one: these types store
-- them and compute nothing with them.
abbrev pub F64 : Type 0
F64 = ℕ

pub data Dialect : Type 0 where
  open_inference gen_ai mixed unknown : Dialect

unfoldable pub dialect_as_str : Dialect → Text
dialect_as_str open_inference = bytes "open_inference"
dialect_as_str gen_ai = bytes "gen_ai"
dialect_as_str mixed = bytes "mixed"
dialect_as_str unknown = bytes "unknown"

unfoldable pub from_str_lenient : Text → Dialect
from_str_lenient s =
    if text_beq s (bytes "open_inference")
    then open_inference
    else if text_beq s (bytes "gen_ai")
    then gen_ai
    else if text_beq s (bytes "mixed")
    then mixed
    else unknown

pub record Tokens : Type 0 where
  pub prompt : Option ℕ
  pub completion : Option ℕ
  pub total : Option ℕ
  pub cache_read : Option ℕ
  pub cache_write : Option ℕ
  pub reasoning : Option ℕ

abbrev pub no_tokens : Tokens
no_tokens = record {
  prompt = none;
  completion = none;
  total = none;
  cache_read = none;
  cache_write = none;
  reasoning = none;
}

abbrev pub is_none {ℓ} : {A : Type ℓ} → Option A → Bool
is_none none = true
is_none (some a) = false

unfoldable pub tokens_is_empty : Tokens → Bool
tokens_is_empty t =
    is_none t.prompt
    && is_none t.completion
    && is_none t.total
    && is_none t.cache_read
    && is_none t.cache_write
    && is_none t.reasoning

pub record NormalizedSpan : Type 0 where
  pub dialect : Dialect
  pub trace_id : Text
  pub span_id : Text
  pub parent_span_id : Option Text
  pub name : Text
  pub otel_kind : ℕ
  pub oi_kind : Option Text
  pub start_unix_nano : ℕ
  pub end_unix_nano : ℕ
  pub status_code : ℕ
  pub status_message : Option Text
  pub model : Option Text
  pub provider : Option Text
  pub tokens : Tokens
  pub cost_usd : Option F64
  pub input_value : Option Text
  pub output_value : Option Text
  pub session_id : Option Text
  pub user_id : Option Text
  pub service_name : Option Text
  pub scope_name : Option Text
  pub scope_version : Option Text
  pub raw_attributes : List (Text × Value)

-- Saturating, as `-` on ℕ is.
unfoldable pub duration_ns : NormalizedSpan → ℕ
duration_ns s = s.end_unix_nano - s.start_unix_nano

pub data UsageMissingReason : Type 0 where
  no_usage_field unparsed_nesting : UsageMissingReason

abbrev pub not_model_calls : List Text
not_model_calls = bytes "AGENT" ∷ bytes "CHAIN" ∷ bytes "TOOL" ∷ []

-- The tests of `is_llm_span` that do not depend on the kind.
unfoldable pub names_model_call : NormalizedSpan → Bool
names_model_call s =
    not (is_none s.model)
    || any
        (λ (a : Text × Value).
          starts_with a.0 (bytes "gen_ai.request.")
          || starts_with a.0 (bytes "gen_ai.response.")
          || starts_with a.0 (bytes "gen_ai.usage."))
        s.raw_attributes

unfoldable pub is_llm_kind : Option Text → Bool → Bool
is_llm_kind none rest = rest
is_llm_kind (some k) rest =
    if eq_ignore_ascii_case k (bytes "LLM")
    then true
    else if any (λ n. eq_ignore_ascii_case k n) not_model_calls
    then false
    else rest

unfoldable pub is_llm_span : NormalizedSpan → Bool
unfolding is_llm_kind names_model_call
is_llm_span s = is_llm_kind s.oi_kind (names_model_call s)

-- `nested` in `usage_missing`
unfoldable pub has_nested_usage : List (Text × Value) → Bool
has_nested_usage = any λ a.
    let kl = to_ascii_lowercase a.0 in
    (contains_str kl (bytes "usage") || contains_str kl (bytes "token")) && json_mentions_tokens a.1

unfoldable pub usage_missing : NormalizedSpan → Option UsageMissingReason
usage_missing s =
    if not (is_llm_span s) || not (tokens_is_empty s.tokens)
    then none
    else if has_nested_usage s.raw_attributes
    then some unparsed_nesting
    else some no_usage_field

pub data ScoreTarget : Type 0 where
  trace span session run : Text → ScoreTarget

unfoldable pub key : ScoreTarget → Text
key (trace id) = bytes "trace:" ++ id
key (span id) = bytes "span:" ++ id
key (session id) = bytes "session:" ++ id
key (run id) = bytes "run:" ++ id

pub data DataType : Type 0 where
  numeric categorical boolean text : DataType

pub data ScoreSource : Type 0 where
  eval human api : ScoreSource

pub record AggStats : Type 0 where
  pub n : ℕ
  pub pass_count : ℕ
  pub mean : F64
  pub variance : F64

pub record Score : Type 0 where
  pub id : Text
  pub target : ScoreTarget
  pub name : Text
  pub num_value : Option F64
  pub str_value : Option Text
  pub data_type : DataType
  pub source : ScoreSource
  pub comment : Option Text
  pub config_id : Option Text
  pub agg_stats : Option AggStats
  pub ts_unix_nano : ℕ
