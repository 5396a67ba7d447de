-- ===== src/Price/Parts.antt =====
-- What each step on a model id drops from it: versions, a region, a date.
use mathlib.Core.List.{append_assoc, append-nil}
use evald.Prelude.{
  ℕ, zero, suc, ◌≡◌, refl, sym, ap, ◌⊎◌, inl, inr, true, not, Option, none, some, List, [], ◌∷◌,
  ◌++◌, Text, text_beq, text_eq, contains, Bool-cases, if◌then◌else◌, ◌&&◌, strip_prefix, split,
  rsplit_once, rsplit_once_lem, arith, text_beq_refl, nat_beq, nat_beq_iff, Option-cases,
}
use evald.Prelude.Options.{◌>>=◌, >>=-eq-some, or_else-eq-some}
use evald.Prelude.Maps.{get}
use evald.Price.{
  Price, PriceTable, regions, strip_first, strip_region, is_version_segment, cut_version,
  get_key_value, keyed, strip_loop, before_date,
}

pub data IsVersions : Text → Type 0 where
  bare : IsVersions []
  version :
      (s seg : Text) → IsVersions s → is_version_segment seg ≡ true → IsVersions (s ++ b'-' ∷ seg)

pub data IsProviders : Text → Type 0 where
  no_provider : IsProviders []
  provider : (p s : Text) → IsProviders s → IsProviders (p ++ b'/' ∷ s)

pub data IsDate : Text → Type 0 where
  no_date : IsDate []
  date : (s : Text) → IsDate (b'@' ∷ s)

pub data IsRegion : Text → Type 0 where
  no_region : IsRegion []
  region : (s : Text) → contains regions s ≡ true → IsRegion s

-- A key that a table prices at `price`.
abbrev pub Prices : PriceTable → Text → Price → Type 0
Prices table k price = get k table.models ≡ some price

keyed-eq-some :
    (model k : Text) (m : Option Price) (price : Price)
    → keyed model m ≡ some (k, price)
    → (k ≡ model) × (m ≡ some price)
keyed-eq-some model k none price h = cc
keyed-eq-some model k (some p) price h = (cc, cc)

pub get_key_value_lem :
    (table : PriceTable) (model k : Text) (price : Price)
    → get_key_value table model ≡ some (k, price)
    → (k ≡ model) × Prices table k price
unfolding get_key_value
get_key_value_lem table model k price h =
    let (e, found) = keyed-eq-some model k (get model table.models) price h in (e, rw e found)

cut_version_lem :
    (cur head : Text)
    → cut_version cur ≡ some head
    → (seg : Text) × (cur ≡ head ++ b'-' ∷ seg) × (is_version_segment seg ≡ true)
unfolding cut_version
cut_version_lem cur head h =
    let ((front, seg), found, cut) =
      >>=-eq-some (rsplit_once cur b'-')
        (λ (parts : Text × Text).
          if is_version_segment parts.1 && not (text_beq parts.0 []) then some parts.0 else none)
        h in
    let same : (is_version_segment seg ≡ true) × (front ≡ head) = ground (arith, cut) in
    (seg, rw (sym same.1) (rsplit_once_lem cur front seg b'-' found), same.0)

-- `k` is what is left of `name` when versions are dropped from its end.
abbrev pub IsCutTo : Text → Text → Type 0
IsCutTo name k = (suf : Text) × (name ≡ k ++ suf) × IsVersions suf

pub strip_loop_lem :
    (rounds : ℕ) (table : PriceTable) (cur k : Text) (price : Price)
    → strip_loop rounds table cur ≡ some (k, price)
    → Prices table k price × IsCutTo cur k
unfolding strip_loop
strip_loop_lem zero table cur k price h = cc
strip_loop_lem (suc rounds) table cur k price h =
    elim (or_else-eq-some (get_key_value table cur)
      (cut_version cur >>= λ head. strip_loop rounds table head) h) [
        | inl hit ↦
            let (e, priced) = get_key_value_lem table cur k price hit in
            (priced, ([], ground (arith, e, append-nil k), bare))
        | inr later ↦
            let (head, cut, found) =
              >>=-eq-some (cut_version cur) (λ head. strip_loop rounds table head) later in
            let (seg, e, is_seg) = cut_version_lem cur head cut in
            let (priced, (suf, f, versions)) = strip_loop_lem rounds table head k price found in
            (
              priced,
              (
                suf ++ b'-' ∷ seg,
                rw (e, f) (append_assoc k suf (b'-' ∷ seg)),
                version suf seg versions is_seg,
              ),
            )
      ]

strip_prefix_lem : (s p rest : Text) → strip_prefix s p ≡ some rest → s ≡ p ++ rest
strip_prefix_lem s [] rest h = cc
strip_prefix_lem [] (x ∷ p) rest h = cc
strip_prefix_lem (c ∷ s) (x ∷ p) rest h = ground (arith, strip_prefix_lem s p rest)

strip_first_lem :
    (ps : List Text) (name : Text)
    → ((p : Text) × (contains ps p ≡ true) × (name ≡ p ++ strip_first ps name))
      ⊎ (strip_first ps name ≡ name)
unfolding strip_first
strip_first_lem [] name = inr refl
strip_first_lem (p ∷ ps) name = elim (Option-cases (strip_prefix name p)) [
  | inl other ↦ rw other (elim (strip_first_lem ps name) [
    | inl found ↦ let (q, listed, e) = found in inl (q, ground (arith, listed), e)
    | inr same ↦ inr same
  ])
  | inr found ↦
      let (rest, e) = found in
      rw e (inl (p, ground (arith, text_beq_refl p), strip_prefix_lem name p rest e))
]

pub strip_region_lem : (name : Text) → (p : Text) × IsRegion p × (name ≡ p ++ strip_region name)
unfolding strip_region
strip_region_lem name = elim (strip_first_lem regions name) [
  | inl found ↦ let (p, listed, e) = found in (p, region p listed, e)
  | inr same ↦ ([], no_region, sym same)
]

split_head :
    (s : Text)
    → (first : Text) × (others : List Text) × (d : Text) × (split s b'@' ≡ first ∷ others)
      × (s ≡ first ++ d)
      × IsDate d
split_head [] = ([], [], [], refl, refl, no_date)
split_head (c ∷ rest) = elim (Bool-cases (nat_beq c b'@')) [
  | inl at ↦ (
    [],
    split rest b'@',
    b'@' ∷ rest,
    rw at refl,
    ground (arith, (nat_beq_iff c b'@').0 at),
    date rest,
  )
  | inr other ↦
      let (first, others, d, e, f, is_date) = split_head rest in
      (c ∷ first, others, d, rw (other, e) refl, ap (λ (t : Text). c ∷ t) f, is_date)
]

pub before_date_lem :
    (rest : Text) → (d : Text) × IsDate d × (rest ≡ before_date rest (split rest b'@') ++ d)
unfolding before_date
before_date_lem rest =
    let (first, others, d, e, f, is_date) = split_head rest in (d, is_date, rw e f)
