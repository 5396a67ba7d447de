-- ===== src/Prelude/Copies.antt =====
-- `filter(|s| seen.insert(key(s)))`: the first element of each key that the set does not hold.
use mathlib.Core.Path.{◌≡◌}
use mathlib.Core.Bool.{not, ◌&&◌, ◌||◌}
use mathlib.Core.List.{List, [], ◌∷◌, map}
use native.Mathlib.Omega.{arith}
use evald.Prelude.Tests.{if◌then◌else◌}
use evald.Prelude.Equality.{Eq}
use evald.Prelude.Sets.{contains, insert, IsDistinct, contains-insert}

module _ {ℓ κ} {A : Type ℓ} {K : Type κ} ⦃e : Eq K⦄ (key : A → K) where
  unfoldable pub first_copies : List K → List A → List A
  first_copies seen [] = []
  first_copies seen (x ∷ xs) =
      let rest = first_copies (insert (key x) seen) xs in
      if contains seen (key x) then rest else x ∷ rest

  -- The set afterwards.
  unfoldable pub seen_after : List K → List A → List K
  seen_after seen [] = seen
  seen_after seen (x ∷ xs) = seen_after (insert (key x) seen) xs

  pub contains-seen_after :
      (seen : List K) (xs : List A) (k : K)
      → contains (seen_after seen xs) k ≡ (contains seen k || contains (map key xs) k)
  unfolding seen_after
  contains-seen_after seen [] k = ground arith
  contains-seen_after seen (x ∷ xs) k =
      ground (arith, contains-seen_after (insert (key x) seen) xs k, contains-insert (key x) k seen)

  -- A key is kept exactly if it occurs and the set did not hold it.
  pub contains-first_copies :
      (seen : List K) (xs : List A) (k : K)
      → contains (map key (first_copies seen xs)) k
        ≡ (not (contains seen k) && contains (map key xs) k)
  unfolding first_copies
  contains-first_copies seen [] k = ground arith
  contains-first_copies seen (x ∷ xs) k = ground (
    arith,
    contains-first_copies (insert (key x) seen) xs k,
    contains-insert (key x) k seen,
    e.beq_iff (key x) k,
  )

  -- No key is kept twice.
  pub first_copies-IsDistinct :
      (seen : List K) (xs : List A) → IsDistinct (map key (first_copies seen xs))
  unfolding first_copies
  first_copies-IsDistinct seen [] = tt
  first_copies-IsDistinct seen (x ∷ xs) = ground (
    arith,
    first_copies-IsDistinct (insert (key x) seen) xs,
    contains-first_copies (insert (key x) seen) xs (key x),
    contains-insert (key x) (key x) seen,
    e.beq_iff (key x) (key x),
  )
