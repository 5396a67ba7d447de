-- ===== src/Model/Tests.antt =====
-- The laws of names and keys at concrete values.
use evald.Prelude.{◌≡◌, refl, bytes}
use evald.Model.{mixed, from_str_lenient, dialect_as_str, span}
use evald.Model.Laws.{from_str_lenient-as_str, key-injective}

span_keys_agree : span (bytes "ab") ≡ span (bytes "ab")
span_keys_agree = key-injective (span (bytes "ab")) (span (bytes "ab")) refl

mixed_is_read : from_str_lenient (dialect_as_str mixed) ≡ mixed
mixed_is_read = from_str_lenient-as_str mixed
