-- ===== src/Price/Derive/Applied.antt =====
-- What filling in a derived cost changes, and what it leaves.
use evald.Prelude.{
  ◌≡◌, ◌⊎◌, refl, ◌∙◌, Bool, true, false, ◌&&◌, Option, none, some, [], Text, bytes, text_eq,
  text_beq, contains, if◌then◌else◌, arith, Bool-cases, Option-cases, inl, inr,
}
use evald.Prelude.Options.{◌>>=◌, >>=-eq-some}
use evald.Prelude.Maps.{
  Map, get, put, delete, keys, get-put, get-delete, keys-put, keys-delete, text_less,
}
use evald.Model.{NormalizedSpan, is_none}
use evald.Model.Json.{Value, string, as_str}
use evald.Price.{Price, PriceTable, lookup}
use evald.Price.Basis.{
  Basis, default_basis, Float, stamp, stamp_of, from_stamp, detect_basis, price_tokens,
}
use evald.Price.Derive.{
  has_cost_attribute, reported_total, Derived, derive_priced, derive_free, derive, basis_key,
  stamped, filled, apply,
}

-- The basis that a span records: the default one where it records none.
abbrev pub basis_of_stamp : Option Text → Basis
basis_of_stamp none = default_basis
basis_of_stamp (some s) = from_stamp s

abbrev pub recorded_basis : Map Text Value → Basis
recorded_basis attributes = basis_of_stamp (get basis_key attributes >>= as_str)

from_stamp-stamp :
    (c r : Bool) → basis_of_stamp (stamp_of c r) ≡ record { cache_excl = c; reasoning_add = r }
unfolding stamp_of from_stamp
from_stamp-stamp false false = refl
from_stamp-stamp false true = refl
from_stamp-stamp true false = refl
from_stamp-stamp true true = refl

get-other :
    (k q : Text) (v : Value) (m : Map Text Value)
    → text_beq k q ≡ false
    → (get q (delete k m) ≡ get q m) × (get q (put k v (delete k m)) ≡ get q m)
get-other k q v m h =
    let dropped : get q (delete k m) ≡ get q m = get-delete k q m ∙ rw h refl in
    (dropped, get-put k q v (delete k m) ∙ rw h dropped)

get-stamped :
    (s : Option Text) (q : Text) (m : Map Text Value)
    → text_beq basis_key q ≡ false
    → get q (stamped s m) ≡ get q m
unfolding stamped
get-stamped none q m h = (get-other basis_key q (string []) m h).0
get-stamped (some s) q m h = (get-other basis_key q (string s) m h).1

get_basis-stamped :
    (s : Option Text) (m : Map Text Value) → (get basis_key (stamped s m) >>= as_str) ≡ s
unfolding stamped
get_basis-stamped none m = rw (get-delete basis_key basis_key m) refl
get_basis-stamped (some s) m = rw (get-put basis_key basis_key (string s) (delete basis_key m)) refl

recorded-stamped : (b : Basis) (m : Map Text Value) → recorded_basis (stamped (stamp b) m) ≡ b
unfolding stamp
recorded-stamped b m =
    rw (get_basis-stamped (stamp b) m) (from_stamp-stamp b.cache_excl b.reasoning_add)

keys-stamped :
    (s : Option Text) (q : Text) (m : Map Text Value)
    → text_beq basis_key q ≡ false
    → contains (keys (stamped s m)) q ≡ contains (keys m) q
unfolding stamped
keys-stamped none q m h = keys-delete basis_key q m ∙ rw h refl
keys-stamped (some s) q m h =
    keys-put basis_key q (string s) (delete basis_key m)
    ∙ rw h (keys-delete basis_key q m ∙ rw h refl)

-- Two spans that agree on all but the cost and the recorded basis.
abbrev pub AgreeBut : NormalizedSpan → NormalizedSpan → Type 0
AgreeBut a b =
    (a ≡ record b { cost_usd = a.cost_usd; raw_attributes = a.raw_attributes })
    × ((q : Text) → text_beq basis_key q ≡ false → get q a.raw_attributes ≡ get q b.raw_attributes)

has_cost_attribute-filled :
    (span : NormalizedSpan) (d : Option Derived)
    → has_cost_attribute (filled span d) ≡ has_cost_attribute span
unfolding has_cost_attribute filled
has_cost_attribute-filled span none = refl
has_cost_attribute-filled span (some d) =
    rw
      (
        keys-stamped (stamp d.basis) (bytes "llm.cost.total") span.raw_attributes refl,
        keys-stamped (stamp d.basis) (bytes "gen_ai.usage.cost") span.raw_attributes refl,
      )
      refl

AgreeBut-filled : (span : NormalizedSpan) (d : Option Derived) → AgreeBut (filled span d) span
unfolding filled
AgreeBut-filled span none = (refl, λ q h. refl)
AgreeBut-filled span (some d) = (refl, λ q h. get-stamped (stamp d.basis) q span.raw_attributes h)

derive_priced_lem :
    (f : Float) (span : NormalizedSpan) (key : Text) (price : Price) (d : Derived)
    → derive_priced f span key price ≡ some d
    → (has_cost_attribute span ≡ false)
      × (d.model ≡ key)
      × (d.basis ≡ detect_basis span.tokens (reported_total span))
      × (d.cost ≡ price_tokens f price span.tokens d.basis)
unfolding derive_priced
derive_priced_lem f span key price d h = elim (Bool-cases (has_cost_attribute span)) [
  | inl reported ↦ absurd (ground (arith, h, reported))
  | inr free ↦ ground (arith, h, free)
]

-- What `derive` requires of a span that it prices.
abbrev pub IsPricedBy : Float → PriceTable → NormalizedSpan → Derived → Type 0
IsPricedBy f table span d =
    (has_cost_attribute span ≡ false)
    × (d.basis ≡ detect_basis span.tokens (reported_total span))
    × ((is_none span.tokens.prompt && is_none span.tokens.completion) ≡ false)
    × (model : Text) × (price : Price) × (span.model ≡ some model)
    × (lookup table model ≡ some (d.model, price))
    × (d.cost ≡ price_tokens f price span.tokens d.basis)

derive_free_lem :
    (f : Float) (table : PriceTable) (span : NormalizedSpan) (d : Derived)
    → derive_free f table span ≡ some d
    → IsPricedBy f table span d
unfolding derive_free
derive_free_lem f table span d h =
    let missing = is_none span.tokens.prompt && is_none span.tokens.completion in
    let look = λ (model : Text). if missing then none else lookup table model in
    let priced = λ (found : Text × Price). derive_priced f span found.0 found.1 in
    let (model, named, looked) = >>=-eq-some span.model (λ model. look model >>= priced) h in
    let ((key, price), found, last) = >>=-eq-some (look model) priced looked in
    let (no_attribute, e_model, e_basis, e_cost) = derive_priced_lem f span key price d last in
    elim (Bool-cases missing) [
      | inl empty ↦ absurd (ground (arith, found, empty))
      | inr counted ↦
          let hit : lookup table model ≡ some (key, price) = rw (counted) at found in
          (no_attribute, e_basis, counted, model, price, named, rw e_model hit, e_cost)
    ]

pub derive_lem :
    (f : Float) (table : PriceTable) (span : NormalizedSpan) (d : Derived)
    → derive f table span ≡ some d
    → (is_none span.cost_usd ≡ true) × IsPricedBy f table span d
unfolding derive
derive_lem f table span d h = elim (Bool-cases (is_none span.cost_usd)) [
  | inl free ↦ (free, derive_free_lem f table span d (rw (free) at h))
  | inr set ↦ absurd (ground (arith, rw (set) at h))
]

-- A span with a cost, or with an attribute that reports one, readable or not, is left as it is.
pub apply-reported :
    (f : Float) (table : PriceTable) (span : NormalizedSpan)
    → (is_none span.cost_usd ≡ false) ⊎ (has_cost_attribute span ≡ true)
    → apply f table span ≡ span
unfolding apply filled
apply-reported f table span h = elim (Option-cases (derive f table span)) [
  | inl absent ↦ rw absent refl
  | inr found ↦
      let (d, e) = found in
      let (free, priced) = derive_lem f table span d e in
      absurd (elim h [
        | inl set ↦ ground (arith, free, set)
        | inr reported ↦ ground (arith, priced.0, reported)
      ])
]

-- A derived cost is filled in together with the basis that it was derived on: a value that the
-- caller sent under the basis key is replaced or removed. Every other field and attribute stays,
-- no cost attribute appears, and no later pass, with whatever table, changes the span again.
pub apply_lem :
    (f : Float) (table : PriceTable) (span : NormalizedSpan) (d : Derived)
    → derive f table span ≡ some d
    → let out = apply f table span in
      (out.cost_usd ≡ some d.cost)
      × (recorded_basis out.raw_attributes ≡ d.basis)
      × AgreeBut out span
      × (has_cost_attribute out ≡ false)
      × ((other : PriceTable) → apply f other out ≡ out)
unfolding apply filled
apply_lem f table span d h =
    let (free, priced) = derive_lem f table span d h in
    rw h (
      (
        refl,
        recorded-stamped d.basis span.raw_attributes,
        AgreeBut-filled span (some d),
        has_cost_attribute-filled span (some d) ∙ priced.0,
        λ other. apply-reported f other (filled span (some d)) (inl refl),
      ))
