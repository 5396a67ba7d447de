-- ===== src/Rows/Cut.antt =====
-- Rows past the first `n` of a sorted list never reach the first `n` of what it is merged into.
use evald.Prelude.{
  ℕ, zero, suc, ◌+◌, ◌≤◌, ◌≡◌, refl, ap, ◌∙◌, sym, List, [], ◌∷◌, length, take, drop, All, ltb,
  Bool-cases, inl, inr, arith, if◌then◌else◌, take-append-drop,
}
use evald.Rows.{insert_newest, sort_onto}
use evald.Rows.Order.{IsSorted, insert-IsSorted, sort_onto-IsSorted, sort_onto-append}

module _ {ℓ} {T : Type ℓ} (start : T → ℕ) where
  -- How many elements are at least as new as a given time.
  abbrev count_newer : ℕ → List T → ℕ
  count_newer t [] = 0
  count_newer t (x ∷ xs) = (if ltb (start x) t then 0 else 1) + count_newer t xs

  take-insert_oldest :
      (n : ℕ) (x : T) (l : List T)
      → n ≤ length l
      → All (λ y. start x ≤ start y) (take n l)
      → take n (insert_newest start x l) ≡ take n l
  take-insert_oldest zero x l h k = refl
  take-insert_oldest (suc n) x [] h k = absurd (omega arith)
  take-insert_oldest (suc n) x (y ∷ l) h k = elim (Bool-cases (ltb (start y) (start x))) [
    | inl e ↦ absurd (ground arith)
    | inr e ↦ rw e (ap (◌∷◌ y) (take-insert_oldest n x l (omega arith) k.1))
  ]

  count_newer-le : (t : ℕ) (l : List T) → count_newer t l ≤ length l
  count_newer-le t [] = omega arith
  count_newer-le t (x ∷ l) = ground (arith, count_newer-le t l)

  -- Below an element that is older than `t`, a sorted list has none as new as `t`.
  count_newer_below :
      (t a : ℕ) (l : List T) → suc a ≤ t → All (λ y. start y ≤ a) l → count_newer t l ≡ 0
  count_newer_below t a [] h k = refl
  count_newer_below t a (x ∷ l) h k = ground (arith, count_newer_below t a l h k.1)

  take_newer :
      (n t : ℕ) (l : List T)
      → IsSorted start l
      → n ≤ count_newer t l
      → All (λ y. t ≤ start y) (take n l)
  take_newer zero t l s h = tt
  take_newer (suc n) t [] s h = absurd (omega arith)
  take_newer (suc n) t (x ∷ l) s h = elim (Bool-cases (ltb (start x) t)) [
    | inl e ↦ absurd (ground (arith, count_newer_below t (start x) l (ground arith) s.0))
    | inr e ↦ (ground arith, take_newer n t l s.1 (ground arith))
  ]

  count_newer-insert :
      (t : ℕ) (x : T) (l : List T) → count_newer t (insert_newest start x l) ≡ count_newer t (x ∷ l)
  count_newer-insert t x [] = refl
  count_newer-insert t x (y ∷ l) = elim (Bool-cases (ltb (start y) (start x))) [
    | inl e ↦ rw e
    | inr e ↦ rw e (omega (arith, count_newer-insert t x l))
  ]

  count_newer-sort_onto :
      (t : ℕ) (s l : List T)
      → count_newer t (sort_onto start s l) ≡ count_newer t s + count_newer t l
  count_newer-sort_onto t s [] = omega arith
  count_newer-sort_onto t s (x ∷ l) =
      omega (arith, count_newer-sort_onto t (insert_newest start x s) l, count_newer-insert t x s)

  -- Every entry of `newest` is at least as new as every entry of `l`: `l` adds nothing.
  take-sort_onto_oldest :
      (n : ℕ) (s l : List T)
      → IsSorted start s
      → All (λ x. n ≤ count_newer (start x) s) l
      → take n (sort_onto start s l) ≡ take n s
  take-sort_onto_oldest n s [] h k = refl
  take-sort_onto_oldest n s (x ∷ l) h k =
      take-sort_onto_oldest n (insert_newest start x s) l (insert-IsSorted start x s h) (grow l k.1)
      ∙ take-insert_oldest n x s (omega (arith, count_newer-le (start x) s))
          (take_newer n (start x) s h k.0)
    where
      grow :
          (l : List T)
          → All (λ z. n ≤ count_newer (start z) s) l
          → All (λ z. n ≤ count_newer (start z) (insert_newest start x s)) l
      grow [] k = tt
      grow (z ∷ l) k = (omega (arith, count_newer-insert (start z) x s), grow l k.1)

  -- In a sorted list everything behind the first `n` has `n` entries as new in front of it.
  count_newer_front :
      (n : ℕ) (l : List T)
      → IsSorted start l
      → All (λ x. n ≤ count_newer (start x) (take n l)) (drop n l)
  count_newer_front zero l s = everything l
    where
      everything : (l : List T) → All (λ x. 0 ≤ count_newer (start x) []) l
      everything [] = tt
      everything (x ∷ l) = (omega arith, everything l)
  count_newer_front (suc n) [] s = tt
  count_newer_front (suc n) (y ∷ l) s =
      in_front (drop n l) (behind n l s.0) (count_newer_front n l s.1)
    where
      behind :
          (k : ℕ) (l : List T)
          → All (λ x. start x ≤ start y) l
          → All (λ x. start x ≤ start y) (drop k l)
      behind zero l h = h
      behind (suc k) [] h = tt
      behind (suc k) (x ∷ l) h = behind k l h.1

      in_front :
          (r : List T)
          → All (λ x. start x ≤ start y) r
          → All (λ x. n ≤ count_newer (start x) (take n l)) r
          → All (λ x. suc n ≤ count_newer (start x) (y ∷ take n l)) r
      in_front [] p q = tt
      in_front (x ∷ r) p q = (ground arith, in_front r p.1 q.1)

  -- Only the first `n` of a sorted list matter to the first `n` of a merge with it.
  pub take-sort_onto-take :
      (n : ℕ) (s l : List T)
      → IsSorted start s
      → IsSorted start l
      → take n (sort_onto start s (take n l)) ≡ take n (sort_onto start s l)
  take-sort_onto-take n s l hs hl = sym (
      ap (λ t. take n (sort_onto start s t)) (sym (take-append-drop n l))
      ∙ ap (take n) (sort_onto-append start s (take n l) (drop n l))
      ∙ take-sort_onto_oldest n (sort_onto start s (take n l)) (drop n l)
          (sort_onto-IsSorted start s (take n l) hs)
          (counted (drop n l) (count_newer_front n l hl)))
    where
      counted :
          (r : List T)
          → All (λ x. n ≤ count_newer (start x) (take n l)) r
          → All (λ x. n ≤ count_newer (start x) (sort_onto start s (take n l))) r
      counted [] q = tt
      counted (x ∷ r) q =
          (omega (arith, count_newer-sort_onto (start x) s (take n l)), counted r q.1)
