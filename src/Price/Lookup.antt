-- ===== src/Price/Lookup.antt =====
-- What a found price has to do with the model id: the table's own key and rates, with nothing
-- dropped from the id but providers, a region, versions and a date.
use mathlib.Core.List.{append_assoc}
use evald.Prelude.{
  ℕ, zero, suc, ◌≡◌, refl, sym, ◌∙◌, ◌⊎◌, inl, inr, none, some, [], ◌∷◌, ◌++◌, Text, text_beq,
  text_eq, if◌then◌else◌, split, split_once, split_once_lem, to_ascii_lowercase, length, arith,
}
use evald.Prelude.Options.{◌>>=◌, >>=-eq-some, or_else-eq-some}
use evald.Price.{
  Price, PriceTable, strip_region, get_key_value, strip_loop, before_date, lookup_variants,
  lookup_stripping_versions, next_segment, lookup_loop, lookup,
}
use evald.Price.Parts.{
  IsVersions, IsProviders, no_provider, provider, IsDate, IsRegion, no_region, Prices,
  get_key_value_lem, strip_loop_lem, strip_region_lem, before_date_lem,
}

-- The id `name` is the key `k` with nothing around it but providers, a region, versions, a date.
abbrev pub Denotes : Text → Text → Type 0
Denotes name k =
    (front : Text) × (place : Text) × (versions : Text) × (day : Text) × IsProviders front
    × IsRegion place
    × IsVersions versions
    × IsDate day
    × (name ≡ front ++ place ++ k ++ versions ++ day)

lookup_variants_lem :
    (table : PriceTable) (base k : Text) (price : Price)
    → lookup_variants table base ≡ some (k, price)
    → Prices table k price
      × ((place : Text) × (versions : Text) × IsRegion place
          × IsVersions versions
          × (base ≡ place ++ k ++ versions))
unfolding lookup_variants lookup_stripping_versions
lookup_variants_lem table base k price h =
    elim (or_else-eq-some (strip_loop 5 table base) (strip_loop 5 table (strip_region base)) h) [
      | inl hit ↦
          let (priced, (suf, e, versions)) = strip_loop_lem 5 table base k price hit in
          (priced, ([], suf, no_region, versions, e))
      | inr hit ↦
          let (place, is_region, e) = strip_region_lem base in
          let (priced, (suf, f, versions)) =
            strip_loop_lem 5 table (strip_region base) k price hit in
          (priced, (place, suf, is_region, versions, e ∙ rw f (sym (append_assoc place k suf))))
    ]

pub next_segment_lem :
    (rest tail : Text) → next_segment rest ≡ some tail → (p : Text) × (rest ≡ p ++ b'/' ∷ tail)
unfolding next_segment
next_segment_lem rest tail h =
    let ((p, t), found, kept) =
      >>=-eq-some (split_once rest b'/')
        (λ (parts : Text × Text). if text_beq parts.1 [] then none else some parts.1) h in
    let same : t ≡ tail = ground (arith, kept) in
    (p, rw (sym same) (split_once_lem rest p t b'/' found))

lookup_loop_lem :
    (fuel : ℕ) (table : PriceTable) (rest k : Text) (price : Price)
    → lookup_loop fuel table rest ≡ some (k, price)
    → Prices table k price × Denotes rest k
unfolding lookup_loop
lookup_loop_lem zero table rest k price h = cc
lookup_loop_lem (suc fuel) table rest k price h =
    elim (or_else-eq-some (lookup_variants table (before_date rest (split rest b'@')))
      (next_segment rest >>= λ tail. lookup_loop fuel table tail) h) [
        | inl hit ↦
            let base = before_date rest (split rest b'@') in
            let (day, is_date, e) = before_date_lem rest in
            let (priced, (place, versions, is_region, is_versions, f)) =
              lookup_variants_lem table base k price hit in
            (
              priced,
              (
                [],
                place,
                versions,
                day,
                no_provider,
                is_region,
                is_versions,
                is_date,
                e ∙ rw f (simp append_assoc refl),
              ),
            )
        | inr later ↦
            let (tail, cut, found) =
              >>=-eq-some (next_segment rest) (λ tail. lookup_loop fuel table tail) later in
            let (p, e) = next_segment_lem rest tail cut in
            let (
              priced,
              (front, place, versions, day, is_front, is_region, is_versions, is_date, f),
            ) =
              lookup_loop_lem fuel table tail k price found in
            (
              priced,
              (
                p ++ b'/' ∷ front,
                place,
                versions,
                day,
                provider p front is_front,
                is_region,
                is_versions,
                is_date,
                e ∙ rw f (simp append_assoc refl),
              ),
            )
      ]

-- A found price is the one that the table has for the returned key, and the key is the model id
-- itself or what is left of it, in lower case, when providers, a region, versions and a date are
-- dropped: no price is guessed from a name that is merely alike.
pub lookup_lem :
    (table : PriceTable) (model k : Text) (price : Price)
    → lookup table model ≡ some (k, price)
    → Prices table k price × ((k ≡ model) ⊎ Denotes (to_ascii_lowercase model) k)
unfolding lookup
lookup_lem table model k price h =
    let lower = to_ascii_lowercase model in
    elim (or_else-eq-some (get_key_value table model) (lookup_loop (suc (length lower)) table lower)
      h) [
        | inl hit ↦ let (e, priced) = get_key_value_lem table model k price hit in (priced, inl e)
        | inr later ↦
            let (priced, d) = lookup_loop_lem (suc (length lower)) table lower k price later in
            (priced, inr d)
      ]
