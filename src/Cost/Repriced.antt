-- ===== src/Cost/Repriced.antt =====
-- The stored spans of the ingest path, priced again.
use evald.Prelude.{
  ℕ, ◌≡◌, refl, sym, ap, arith, [], ◌++◌, Text, text_eq, bytes, ◌∙◌, Bool, true, false, not, ◌&&◌,
  ◌||◌, Option, none, some, leb, nat_beq, all,
}
use evald.Prelude.Maps.{Map, get, delete, get-put, text_less}
use evald.Model.{F64, NormalizedSpan, Tokens, is_none}
use evald.Model.Json.{Value, string}
use evald.Price.{Price, PriceTable, lookup}
use evald.Price.Basis.{Basis, Float, stamp, stamp_of, price_tokens}
use evald.Price.Derive.{Derived, derive, apply, filled, stamped, basis_key}
use evald.Price.Derive.Applied.{derive_lem, apply_lem}
use evald.Cost.{Dimension, Row, row_basis, price_again, per_span}
use evald.Cost.Query.{like, basis_pattern, not_reported, row_of}
use evald.Cost.Query.Laws.{
  marker, word_pattern, no_percent, basis_pattern-absent, basis_pattern-present,
}

-- A character that JSON writes as itself.
abbrev is_plain : ℕ → Bool
is_plain c = leb 32 c && leb c 126 && not (nat_beq c b'"') && not (nat_beq c 92)

-- serde_json's text of an object: a member that is a string is written out.
pub record Serde (to_string : Map Text Value → Text) : Type 0 where
  pub writes :
      (m : Map Text Value) (k s : Text)
      → get k m ≡ some (string s)
      → all is_plain k ≡ true
      → all is_plain s ≡ true
      → (front : Text) × (back : Text) × (to_string m
          ≡ front ++ (bytes "\"" ++ (k ++ (bytes "\":\"" ++ (s ++ (bytes "\"" ++ back))))))

abbrev pub cache_word : Text
cache_word = bytes "cache_excl"

abbrev pub reasoning_word : Text
reasoning_word = bytes "reasoning_add"

-- The text has no key of a reported cost, and no word of a reading that the basis is not.
abbrev pub IsClear : Basis → Text → Type 0
IsClear b json =
    (not_reported json ≡ true)
    × ((b.cache_excl || not (like (word_pattern cache_word) json)) ≡ true)
    × ((b.reasoning_add || not (like (word_pattern reasoning_word) json)) ≡ true)

-- The text shows a stamp under the key of the basis.
Shows : Option Text → Text → Type 0
Shows none json = Unit
Shows (some s) json = (front : Text) × (back : Text) × (json ≡ front ++ (marker ++ (s ++ back)))

absent_word :
    (word json : Text)
    → (false || not (like (word_pattern word) json)) ≡ true
    → like (basis_pattern word) json ≡ false
absent_word word json h = basis_pattern-absent word json (ground (arith, h))

flags :
    (c r : Bool) (json : Text)
    → Shows (stamp_of c r) json
    → (c || not (like (word_pattern cache_word) json)) ≡ true
    → (r || not (like (word_pattern reasoning_word) json)) ≡ true
    → (like (basis_pattern cache_word) json ≡ c) × (like (basis_pattern reasoning_word) json ≡ r)
unfolding Shows stamp_of
flags false false json shows h g =
    (absent_word cache_word json h, absent_word reasoning_word json g)
flags true false json (front, back, e) h g = (
  rw e (basis_pattern-present cache_word front [] back (no_percent cache_word refl)),
  absent_word reasoning_word json g,
)
flags false true json (front, back, e) h g = (
  absent_word cache_word json h,
  rw e (basis_pattern-present reasoning_word front [] back (no_percent reasoning_word refl)),
)
flags true true json (front, back, e) h g = (
  rw e (
      basis_pattern-present cache_word front [] (bytes ",reasoning_add" ++ back)
        (no_percent cache_word refl)),
  rw e (
      basis_pattern-present reasoning_word front (bytes "cache_excl,") back
        (no_percent reasoning_word refl)),
)

get-stamped_basis :
    (s : Text) (m : Map Text Value) → get basis_key (stamped (some s) m) ≡ some (string s)
unfolding stamped
get-stamped_basis s m = rw (get-put basis_key basis_key (string s) (delete basis_key m)) refl

shown :
    (to_string : Map Text Value → Text) (m : Map Text Value) (s : Text)
    → Serde to_string
    → all is_plain s ≡ true
    → Shows (some s) (to_string (stamped (some s) m))
unfolding Shows
shown to_string m s serde plain =
    let (front, back, e) =
      serde.writes (stamped (some s) m) basis_key s (get-stamped_basis s m) refl plain in
    (front, bytes "\"" ++ back, e)

Shows-stamped :
    (to_string : Map Text Value → Text) (c r : Bool) (m : Map Text Value)
    → Serde to_string
    → Shows (stamp_of c r) (to_string (stamped (stamp_of c r) m))
unfolding Shows stamp_of
Shows-stamped to_string false false m serde = tt
Shows-stamped to_string true false m serde = shown to_string m (bytes "cache_excl") serde refl
Shows-stamped to_string false true m serde = shown to_string m (bytes "reasoning_add") serde refl
Shows-stamped to_string true true m serde =
    shown to_string m (bytes "cache_excl,reasoning_add") serde refl

price_again_lem :
    (f : Float) (table : PriceTable) (row : Row) (model key : Text) (price : Price) (t : Tokens)
    (b : Basis)
    → row.model ≡ some model
    → row.tokens ≡ t
    → (is_none t.prompt && is_none t.completion) ≡ false
    → lookup table model ≡ some (key, price)
    → row_basis row ≡ b
    → price_again f table row ≡ some (price_tokens f price t b)
unfolding price_again
price_again_lem f table row model key price t b named e counted found e_basis =
    rw (e_basis, named, e, counted, found) refl

derived_basis :
    (row : Row) (b : Basis)
    → row.derived ≡ true
    → b ≡ record { cache_excl = row.cache_excl; reasoning_add = row.reasoning_add }
    → row_basis row ≡ b
unfolding row_basis
derived_basis row b derived e = rw derived (sym e)

per_span-derived :
    (f : Float) (table : PriceTable) (row : Row)
    → row.derived ≡ true
    → per_span f table row ≡ price_again f table row
unfolding per_span
per_span-derived f table row derived = rw derived (ground arith)

-- A span is priced on its way in and read back by the query. Where the text of its attributes has no
-- key of a reported cost, and each of the words `cache_excl` and `reasoning_add` only if it is part
-- of the basis, the span gets the same cost again under the same table, even where the counts alone
-- would be read differently. serde_json writes out a member that is a string.
pub per_span-apply :
    (f : Float) (table : PriceTable) (span : NormalizedSpan) (d : Derived)
    (to_string : Map Text Value → Text) (by : Dimension) (n : ℕ)
    → Serde to_string
    → derive f table span ≡ some d
    → IsClear d.basis (to_string (apply f table span).raw_attributes)
    → let out = apply f table span in
      per_span f table (row_of by n out (to_string out.raw_attributes)) ≡ out.cost_usd
unfolding apply filled stamp row_of
per_span-apply f table span d to_string by n serde h clear =
    let (cost, recorded, agree, unreported, again) = apply_lem f table span d h in
    let (free, (no_attribute, basis_is, counted, model, price, named, found, e_cost)) =
      derive_lem f table span d h in
    let out = apply f table span in
    let json = to_string out.raw_attributes in
    let row = row_of by n out json in
    let (no_key, cache_clear, reasoning_clear) = clear in
    let derived : row.derived ≡ true = rw (cost, no_key) refl in
    let shows : Shows (stamp d.basis) json = rw h (
      Shows-stamped to_string d.basis.cache_excl d.basis.reasoning_add span.raw_attributes serde) in
    let (cache_is, reasoning_is) =
      flags d.basis.cache_excl d.basis.reasoning_add json shows cache_clear reasoning_clear in
    let same_model : row.model ≡ some model = rw h named in
    let same_tokens : row.tokens ≡ span.tokens = rw h refl in
    per_span-derived f table row derived
    ∙ price_again_lem f table row model d.model price span.tokens d.basis same_model same_tokens
        counted found (derived_basis row d.basis derived (rw (cache_is, reasoning_is) refl))
    ∙ sym (cost ∙ ap (λ (c : F64). some c) e_cost)
