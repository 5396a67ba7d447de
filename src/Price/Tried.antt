-- ===== src/Price/Tried.antt =====
-- The names that the steps of a lookup lead to are looked up.
use evald.Prelude.{
  ℕ, zero, suc, ◌<◌, ◌≡◌, ◌≢◌, ◌⊎◌, inl, inr, none, some, Text, text_eq, to_ascii_lowercase, split,
  length, arith,
}
use evald.Prelude.Options.{◌>>=◌, or_else-left, or_else-right}
use evald.Price.{
  Price, PriceTable, strip_region, cut_version, get_key_value, strip_loop, before_date,
  lookup_variants, lookup_stripping_versions, next_segment, lookup_loop, lookup,
}
use evald.Price.Parts.{Prices}
use evald.Price.Rounds.{next_segment-shorter}

-- `k` is `name` without its last versions, at most `most` of them.
pub data IsCut : ℕ → Text → Text → Type 0 where
  uncut : (most : ℕ) (name : Text) → IsCut most name name
  cut :
      (most : ℕ) (name head k : Text)
      → cut_version name ≡ some head
      → IsCut most head k
      → IsCut (suc most) name k

abbrev pub undated : Text → Text
undated rest = before_date rest (split rest b'@')

-- The names that the rounds over `rest` try.
pub data IsTried : Text → Text → Type 0 where
  plain : (rest k : Text) → IsCut 4 (undated rest) k → IsTried rest k
  regional : (rest k : Text) → IsCut 4 (strip_region (undated rest)) k → IsTried rest k
  further : (rest tail k : Text) → next_segment rest ≡ some tail → IsTried tail k → IsTried rest k

get_key_value-found :
    (table : PriceTable) (k : Text) (price : Price)
    → Prices table k price
    → get_key_value table k ≢ none
unfolding get_key_value
get_key_value-found table k price h e = ground (arith, rw (h) at e)

strip_loop-found :
    (most : ℕ) (table : PriceTable) (name k : Text) (price : Price)
    → IsCut most name k
    → Prices table k price
    → strip_loop (suc most) table name ≢ none
unfolding strip_loop
strip_loop-found most table name _ price (uncut _ _) h =
    or_else-left (get_key_value table name)
      (cut_version name >>= λ head. strip_loop most table head)
      (get_key_value-found table name price h)
strip_loop-found _ table name k price (cut most _ head _ e is_cut) h =
    or_else-right (get_key_value table name)
      (cut_version name >>= λ head. strip_loop (suc most) table head)
      (rw e (strip_loop-found most table head k price is_cut h))

lookup_loop-found :
    (fuel : ℕ) (table : PriceTable) (rest k : Text) (price : Price)
    → length rest < fuel
    → IsTried rest k
    → Prices table k price
    → lookup_loop fuel table rest ≢ none
unfolding lookup_loop lookup_variants lookup_stripping_versions
lookup_loop-found zero table rest k price fits tried h = absurd (omega arith)
lookup_loop-found (suc fuel) table rest k price fits (plain _ _ is_cut) h =
    or_else-left (lookup_variants table (undated rest))
      (next_segment rest >>= λ tail. lookup_loop fuel table tail)
      (or_else-left (strip_loop 5 table (undated rest))
        (strip_loop 5 table (strip_region (undated rest)))
        (strip_loop-found 4 table (undated rest) k price is_cut h))
lookup_loop-found (suc fuel) table rest k price fits (regional _ _ is_cut) h =
    or_else-left (lookup_variants table (undated rest))
      (next_segment rest >>= λ tail. lookup_loop fuel table tail)
      (or_else-right (strip_loop 5 table (undated rest))
        (strip_loop 5 table (strip_region (undated rest)))
        (strip_loop-found 4 table (strip_region (undated rest)) k price is_cut h))
lookup_loop-found (suc fuel) table rest k price fits (further _ tail _ e tried) h =
    let shorter : length tail < length rest = next_segment-shorter rest tail e in
    or_else-right (lookup_variants table (undated rest))
      (next_segment rest >>= λ tail. lookup_loop fuel table tail)
      (rw e (lookup_loop-found fuel table tail k price (omega arith) tried h))

pub lookup-tried :
    (table : PriceTable) (model k : Text) (price : Price)
    → (k ≡ model) ⊎ IsTried (to_ascii_lowercase model) k
    → Prices table k price
    → lookup table model ≢ none
unfolding lookup
lookup-tried table model k price (inl e) h =
    or_else-left (get_key_value table model)
      (lookup_loop (suc (length (to_ascii_lowercase model))) table (to_ascii_lowercase model))
      (get_key_value-found table model price (rw (e) at h))
lookup-tried table model k price (inr tried) h =
    let lower = to_ascii_lowercase model in
    or_else-right (get_key_value table model) (lookup_loop (suc (length lower)) table lower)
      (lookup_loop-found (suc (length lower)) table lower k price (omega arith) tried h)
