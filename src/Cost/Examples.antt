-- ===== src/Cost/Examples.antt =====
-- Spans that are priced, stored and priced again, and one that is read on another basis than it was
-- priced on.
use mathlib.Core.List.{append_assoc}
use evald.Prelude.{
  ◌≡◌, refl, some, none, Option, ap, [], ◌∷◌, ◌++◌, Text, text_eq, text_beq, text_beq_iff, bytes,
  Bool-cases, inl, inr,
}
use evald.Prelude.Maps.{Map, get}
use evald.Model.{NormalizedSpan, no_tokens}
use evald.Model.Json.{Value, string, number}
use evald.Price.Derive.{apply}
use evald.Price.Examples.{whole, sonnet_table, sonnet_span, sonnet_cost, sonnet-derive}
use evald.Cost.{by_model, per_span}
use evald.Cost.Query.{row_of}
use evald.Cost.Repriced.{Serde, IsClear, per_span-apply}

-- A writer of members that are strings of plain characters.
abbrev text_of : Value → Text
text_of (string s) = s
text_of _ = []

abbrev written : Map Text Value → Text
written [] = []
written ((k, v) ∷ m) =
    bytes "\"" ++ (k ++ (bytes "\":\"" ++ (text_of v ++ (bytes "\"" ++ (bytes "," ++ written m)))))

abbrev text_or_none : Option Value → Text
text_or_none none = []
text_or_none (some v) = text_of v

written_lem :
    (m : Map Text Value) (k s : Text)
    → get k m ≡ some (string s)
    → (front : Text) × (back : Text) × (written m
        ≡ front ++ (bytes "\"" ++ (k ++ (bytes "\":\"" ++ (s ++ (bytes "\"" ++ back))))))
written_lem [] k s h = cc
written_lem ((j, v) ∷ m) k s h = elim (Bool-cases (text_beq j k)) [
  | inl same ↦
      let e : j ≡ k = (text_beq_iff j k).0 same in
      let value : some v ≡ some (string s) = rw (same) at h in
      let text : text_of v ≡ s = ap text_or_none value in
      ([], bytes "," ++ written m, rw (e, text) refl)
  | inr other ↦
      let (front, back, e) = written_lem m k s (rw (other) at h) in
      (
        bytes "\"" ++ (j ++ (bytes "\":\"" ++ (text_of v ++ (bytes "\"" ++ (bytes "," ++ front))))),
        back,
        rw e (simp append_assoc refl),
      )
]

written-Serde : Serde written
written-Serde = record { writes = λ m k s h p q. written_lem m k s h }

sonnet-IsClear :
    IsClear sonnet_cost.basis (written (apply whole sonnet_table sonnet_span).raw_attributes)
unfolding apply evald.Cost.Query.not_reported evald.Price.Derive.derive evald.Price.lookup
    evald.Price.Basis.stamp evald.Price.Basis.detect_basis evald.Price.Derive.reported_total
sonnet-IsClear = (refl, refl, refl)

per_span-apply_example :
    let out = apply whole sonnet_table sonnet_span in
    per_span whole sonnet_table (row_of by_model 1 out (written out.raw_attributes)) ≡ out.cost_usd
per_span-apply_example =
    per_span-apply whole sonnet_table sonnet_span sonnet_cost written by_model 1 written-Serde
      sonnet-derive sonnet-IsClear

-- Its reasoning is beside the completion and its cache inside the prompt, and the prompt is about
-- the other reading.
abbrev asking_span : NormalizedSpan
asking_span = record sonnet_span {
  tokens = record no_tokens {
    prompt = some 9;
    completion = some 10;
    cache_read = some 7;
    reasoning = some 4;
  };
  raw_attributes =
      (bytes "gen_ai.usage.total_tokens", number (bytes "23"))
      ∷ (bytes "input.value", string (bytes "cache_excl?"))
      ∷ [];
}

asking_priced : (apply whole sonnet_table asking_span).cost_usd ≡ some 223
unfolding apply evald.Price.Derive.derive evald.Price.lookup evald.Price.Basis.price_tokens
    evald.Price.Basis.detect_basis evald.Price.Derive.reported_total evald.Price.rates_for
asking_priced = refl

-- The query takes the word in the prompt for a part of the basis.
asking_priced_again :
    let out = apply whole sonnet_table asking_span in
    per_span whole sonnet_table (row_of by_model 1 out (written out.raw_attributes)) ≡ some 244
unfolding apply per_span row_of evald.Price.Derive.derive evald.Price.lookup evald.Price.Basis.stamp
    evald.Price.Basis.detect_basis evald.Price.Derive.reported_total evald.Price.Basis.price_tokens
    evald.Price.rates_for
asking_priced_again = refl
