-- ===== src/Model/Examples.antt =====
-- Spans and scores as test data.
use evald.Prelude.{ℕ, ◌+◌, none, [], Text}
use evald.Model.{NormalizedSpan, unknown, no_tokens}

-- `test_span` of src/store/mod.rs
abbrev pub test_span : Text → Text → ℕ → NormalizedSpan
test_span trace_id span_id start = record {
  dialect = unknown;
  trace_id = trace_id;
  span_id = span_id;
  parent_span_id = none;
  name = [];
  otel_kind = 0;
  oi_kind = none;
  start_unix_nano = start;
  end_unix_nano = start + 1;
  status_code = 0;
  status_message = none;
  model = none;
  provider = none;
  tokens = no_tokens;
  cost_usd = none;
  input_value = none;
  output_value = none;
  session_id = none;
  user_id = none;
  service_name = none;
  scope_name = none;
  scope_version = none;
  raw_attributes = [];
}
