-- ===== src/Price/Rounds.antt =====
-- The loop over the segments of a model id ends by itself.
use evald.Prelude.{
  ℕ, zero, suc, ◌<◌, ◌≡◌, refl, some, [], ◌∷◌, ◌++◌, inl, inr, Text, to_ascii_lowercase, length,
  arith, Option-cases,
}
use evald.Prelude.Options.{or_else}
use evald.Price.{PriceTable, get_key_value, next_segment, lookup_loop, lookup}
use evald.Price.Lookup.{next_segment_lem}

length-append-lt : (p tail : Text) → length tail < length (p ++ b'/' ∷ tail)
length-append-lt [] tail = omega arith
length-append-lt (c ∷ p) tail = omega (arith, length-append-lt p tail)

pub next_segment-shorter :
    (rest tail : Text) → next_segment rest ≡ some tail → length tail < length rest
next_segment-shorter rest tail e =
    let (p, f) = next_segment_lem rest tail e in rw f (length-append-lt p tail)

lookup_loop-fuel :
    (n m : ℕ) (table : PriceTable) (rest : Text)
    → length rest < n
    → length rest < m
    → lookup_loop n table rest ≡ lookup_loop m table rest
unfolding lookup_loop
lookup_loop-fuel zero m table rest h g = absurd (omega arith)
lookup_loop-fuel (suc n) zero table rest h g = absurd (omega arith)
lookup_loop-fuel (suc n) (suc m) table rest h g = elim (Option-cases (next_segment rest)) [
  | inl last ↦ rw last refl
  | inr more ↦
      let (tail, e) = more in
      let shorter : length tail < length rest = next_segment-shorter rest tail e in
      rw (e, lookup_loop-fuel n m table tail (omega arith) (omega arith)) refl
]

-- The rounds over the segments of a model id end by themselves: a bound above its length, whatever
-- it is, gives the same answer.
pub lookup-lookup_loop :
    (table : PriceTable) (model : Text) (rounds : ℕ)
    → length (to_ascii_lowercase model) < rounds
    → lookup table model
      ≡ or_else (get_key_value table model) (lookup_loop rounds table (to_ascii_lowercase model))
unfolding lookup
lookup-lookup_loop table model rounds h =
    let lower = to_ascii_lowercase model in
    rw (lookup_loop-fuel (suc (length lower)) rounds table lower (omega arith) h) refl
