-- ===== src/Writer/Examples.antt =====
-- Rounds of the writer with the small codec of the log's examples.
use evald.Prelude.{
  ℕ, ◌≤◌, ◌≡◌, refl, true, none, some, List, [], ◌∷◌, ◌++◌, map, length, bytes, contains, nat_eq,
  ltb, nat_beq, if◌then◌else◌, ap,
}
use evald.Prelude.Io.{other_error}
use evald.Key.{SpanKey, span_key, key_of, decode_hex, other, key_eq}
use evald.Hot.{all_spans}
use evald.Query.Distinct.{identities}
use evald.Wal.{
  whole, partial, append_nosync, encode_batch, encode_record, frame, to_le_bytes, seal_and_rotate,
}
use evald.Wal.Examples.{toy, named, log}
use evald.Writer.{
  io, Cmd, append, seal_now, Ack, Writer, Ends, handle, handle_each, publish_each, commit_group,
  answer_seal, seal, is_over_limit, run_group, next_group,
}
use evald.Writer.Collect.{SealsLast, next_group_lem}
use evald.Writer.Sound.{is_acked}
use evald.Writer.Resident.{run_group-Shown}
use evald.Writer.Answers.{run_group-answers}

abbrev idle : Writer
idle = record {
  wal = log;
  hot = record { segments = [] };
  active_seqno = 0;
  rejections = 0;
  ingested = 0;
}

-- The second write fails after five bytes.
abbrev second_fails : Ends
second_fails = record {
  writes = λ id. if nat_beq id 1 then partial 5 other_error else whole;
  sync = none;
  threshold_seal = none;
  command_seal = none;
}

abbrev three : List Cmd
three = append (named (bytes "bb") ∷ []) ∷ append (named (bytes "ccc") ∷ []) ∷ seal_now ∷ []

abbrev acks : List Ack
acks = (1, some (io other_error)) ∷ (0, none) ∷ (2, none) ∷ []

-- The failed batch is answered first, before the sync.
acks_three : (run_group toy 100 0 second_fails idle three).1 ≡ acks
unfolding run_group handle_each handle commit_group answer_seal publish_each seal seal_and_rotate
    append_nosync encode_batch encode_record frame to_le_bytes is_over_limit
acks_three = refl

acks_first : is_acked (run_group toy 100 0 second_fails idle three).1 0 ≡ true
acks_first = ap (λ (a : List Ack). is_acked a 0) acks_three

next_group_lem_example :
    ((next_group seal_now three).0 ++ (next_group seal_now three).1 ≡ seal_now ∷ three)
    × (length (next_group seal_now three).0 ≤ 128)
    × SealsLast (next_group seal_now three).0
next_group_lem_example = next_group_lem seal_now three

abbrev first_key : SpanKey
first_key = other (bytes "bb") []

holds_first : contains (identities (named (bytes "bb") ∷ [])) first_key ≡ true
unfolding span_key key_of decode_hex
holds_first = refl

run_group-Shown_example :
    contains (identities (all_spans (run_group toy 100 0 second_fails idle three).0.hot)) first_key
    ≡ true
run_group-Shown_example =
    run_group-Shown toy 100 0 second_fails idle three 0 (named (bytes "bb") ∷ []) first_key
      acks_first refl holds_first

run_group-answers_example :
    (length (run_group toy 100 0 second_fails idle three).1 ≡ length three)
    × ((i : ℕ)
        → contains (map (λ (a : Ack). a.0) (run_group toy 100 0 second_fails idle three).1) i
          ≡ ltb i (length three))
run_group-answers_example = run_group-answers toy 100 0 second_fails idle three (refl, (refl, tt))
