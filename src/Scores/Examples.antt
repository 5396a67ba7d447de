-- ===== src/Scores/Examples.antt =====
-- A score that moves to another target.
use mathlib.Core.Path.{subst}
use evald.Prelude.{
  ◌≡◌, refl, none, some, List, [], ◌∷◌, Text, text_eq, text_beq, bytes, All, if◌then◌else◌,
}
use evald.Prelude.Maps.{Map, text_less, get, put, get-put}
use evald.Model.{Score, ScoreTarget, trace, span, numeric, api, key}
use evald.Index.Memory.{memory}
use evald.Scores.{TextTable, ScoreJson, scores_new, put_batch}
use evald.Scores.Indexed.{IsIndexed, Parses, put_batch-IsIndexed}

abbrev texts : TextTable
texts = record {
  Table = Map Text Text;
  new_table = [];
  get = get;
  insert = put;
  iter = λ t. t;
  get-new_table = λ k. refl;
  get-insert = λ k q v t. get-put k q v t;
}

abbrev about : ScoreTarget → Score
about target = record {
  id = bytes "s1";
  target = target;
  name = [];
  num_value = none;
  str_value = none;
  data_type = numeric;
  source = api;
  comment = none;
  config_id = none;
  agg_stats = none;
  ts_unix_nano = 7;
}

-- Two scores, under the names of their targets.
abbrev json : ScoreJson
json = record {
  to_string = λ s. some (key s.target);
  from_str = λ t.
      if text_beq t (bytes "trace:t")
      then some (about (trace (bytes "t")))
      else if text_beq t (bytes "span:s")
      then some (about (span (bytes "s")))
      else none;
}

abbrev batch : List Score
batch = about (trace (bytes "t")) ∷ about (span (bytes "s")) ∷ []

new-IsIndexed : IsIndexed memory texts json (scores_new memory texts json)
unfolding scores_new
new-IsIndexed target_key id = refl

batch-Parses : All (Parses memory texts json) batch
unfolding key
batch-Parses = (
  λ text e.
      subst (λ (t : Text). json.from_str t ≡ some (about (trace (bytes "t")))) {x = bytes "trace:t"}
        {y = text} (cc e) refl,
  (
    λ text e.
        subst (λ (t : Text). json.from_str t ≡ some (about (span (bytes "s")))) {x = bytes "span:s"}
          {y = text} (cc e) refl,
    tt,
  ),
)

put_batch-IsIndexed_example :
    IsIndexed memory texts json
      (put_batch memory texts json (scores_new memory texts json) batch none).1
put_batch-IsIndexed_example =
    put_batch-IsIndexed memory texts json (scores_new memory texts json) batch none new-IsIndexed
      batch-Parses
