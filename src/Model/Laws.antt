-- ===== src/Model/Laws.antt =====
-- The names and keys of src/model.rs.
use evald.Prelude.{◌≡◌, refl, ap, arith, drop}
use evald.Model.{
  Dialect, open_inference, gen_ai, mixed, unknown, dialect_as_str, from_str_lenient, ScoreTarget,
  trace, span, session, run, key,
}

-- The lenient reader gives back the dialect from its name.
pub from_str_lenient-as_str : (d : Dialect) → from_str_lenient (dialect_as_str d) ≡ d
unfolding from_str_lenient dialect_as_str
from_str_lenient-as_str open_inference = refl
from_str_lenient-as_str gen_ai = refl
from_str_lenient-as_str mixed = refl
from_str_lenient-as_str unknown = refl

-- Two score targets have one `by_target` key only if they are the same target.
pub key-injective : (s t : ScoreTarget) → key s ≡ key t → s ≡ t
unfolding key
key-injective (trace a) (trace b) h = ap trace (ap (drop 6) h)
key-injective (span a) (span b) h = ap span (ap (drop 5) h)
key-injective (session a) (session b) h = ap session (ap (drop 8) h)
key-injective (run a) (run b) h = ap run (ap (drop 4) h)
key-injective _ _ h = ground arith
