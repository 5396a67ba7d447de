-- ===== src/Rows/Order.antt =====
-- The order of a read's rows: the stable newest-first sort, and what inserting into it does to
-- its first rows.
use evald.Prelude.{
  ℕ, zero, suc, ◌≤◌, ◌<◌, ◌≡◌, refl, ap, ◌∙◌, List, [], ◌∷◌, ◌++◌, take, All, ltb, Bool-cases, inl,
  inr, arith,
}
use evald.Rows.{insert_newest, sort_onto, sort_newest}

module _ {ℓ} {T : Type ℓ} (start : T → ℕ) where
  -- Newest first.
  abbrev pub IsSorted : List T → Type 0
  IsSorted [] = Unit
  IsSorted (x ∷ xs) = All (λ y. start y ≤ start x) xs × IsSorted xs

  All-insert {κ} :
      (P : T → Type κ) (x : T) (l : List T) → P x → All P l → All P (insert_newest start x l)
  All-insert P x [] p h = (p, tt)
  All-insert P x (y ∷ l) p h = elim (Bool-cases (ltb (start y) (start x))) [
    | inl e ↦ rw e (p, h)
    | inr e ↦ rw e (h.0, All-insert P x l p h.1)
  ]

  All-le_trans :
      (a b : ℕ) (l : List T) → b ≤ a → All (λ y. start y ≤ b) l → All (λ y. start y ≤ a) l
  All-le_trans a b [] h k = tt
  All-le_trans a b (x ∷ l) h k = (omega arith, All-le_trans a b l h k.1)

  pub insert-IsSorted : (x : T) (l : List T) → IsSorted l → IsSorted (insert_newest start x l)
  insert-IsSorted x [] s = (tt, tt)
  insert-IsSorted x (y ∷ l) s = elim (Bool-cases (ltb (start y) (start x))) [
    | inl e ↦ rw e ((ground arith, All-le_trans (start x) (start y) l (ground arith) s.0), s)
    | inr e ↦
        rw e (All-insert (λ z. start z ≤ start y) x l (ground arith) s.0, insert-IsSorted x l s.1)
  ]

  pub sort_onto-IsSorted : (s l : List T) → IsSorted s → IsSorted (sort_onto start s l)
  sort_onto-IsSorted s [] h = h
  sort_onto-IsSorted s (x ∷ l) h =
      sort_onto-IsSorted (insert_newest start x s) l (insert-IsSorted x s h)

  pub sort_newest-IsSorted : (l : List T) → IsSorted (sort_newest start l)
  unfolding sort_newest
  sort_newest-IsSorted l = sort_onto-IsSorted [] l tt

  -- An older element may be inserted before or after a newer one.
  insert-insert :
      (a y : T) (s : List T)
      → start a < start y
      → insert_newest start a (insert_newest start y s)
        ≡ insert_newest start y (insert_newest start a s)
  insert-insert a y [] h = ground arith
  insert-insert a y (z ∷ s) h = ground (arith, insert-insert a y s)

  sort_onto-insert_older :
      (y : T) (s l : List T)
      → All (λ z. start z < start y) l
      → sort_onto start (insert_newest start y s) l ≡ insert_newest start y (sort_onto start s l)
  sort_onto-insert_older y s [] h = refl
  sort_onto-insert_older y s (z ∷ l) h =
      ap (λ t. sort_onto start t l) (insert-insert z y s h.0)
      ∙ sort_onto-insert_older y (insert_newest start z s) l h.1

  All-lt : (a b : ℕ) (l : List T) → b < a → All (λ y. start y ≤ b) l → All (λ y. start y < a) l
  All-lt a b [] h k = tt
  All-lt a b (x ∷ l) h k = (omega arith, All-lt a b l h k.1)

  sort_onto-insert :
      (y : T) (s l : List T)
      → IsSorted l
      → sort_onto start s (insert_newest start y l) ≡ insert_newest start y (sort_onto start s l)
  sort_onto-insert y s [] h = refl
  sort_onto-insert y s (z ∷ l) h = elim (Bool-cases (ltb (start z) (start y))) [
    | inl e ↦ rw e (
        sort_onto-insert_older y s (z ∷ l)
          (ground arith, All-lt (start y) (start z) l (ground arith) h.0))
    | inr e ↦ rw e (sort_onto-insert y (insert_newest start z s) l h.1)
  ]

  -- Sorting what has been sorted apart is sorting all of it.
  pub sort_onto-sort_onto :
      (s l ys : List T)
      → IsSorted l
      → sort_onto start s (sort_onto start l ys) ≡ sort_onto start (sort_onto start s l) ys
  sort_onto-sort_onto s l [] h = refl
  sort_onto-sort_onto s l (y ∷ ys) h =
      sort_onto-sort_onto s (insert_newest start y l) ys (insert-IsSorted y l h)
      ∙ ap (λ t. sort_onto start t ys) (sort_onto-insert y s l h)

  pub sort_onto-append :
      (s xs ys : List T) → sort_onto start s (xs ++ ys) ≡ sort_onto start (sort_onto start s xs) ys
  sort_onto-append s [] ys = refl
  sort_onto-append s (x ∷ xs) ys = sort_onto-append (insert_newest start x s) xs ys

  take-cons-take : (n : ℕ) (y : T) (l : List T) → take n (y ∷ take n l) ≡ take n (y ∷ l)
  take-cons-take zero y l = refl
  take-cons-take (suc n) y l = ap (◌∷◌ y) (take_fewer n l)
    where
      take_fewer : (n : ℕ) (l : List T) → take n (take (suc n) l) ≡ take n l
      take_fewer zero l = refl
      take_fewer (suc n) [] = refl
      take_fewer (suc n) (x ∷ l) = ap (◌∷◌ x) (take_fewer n l)

  -- The first rows after an insertion depend on the first rows before it.
  pub take-insert-take :
      (n : ℕ) (x : T) (l : List T)
      → take n (insert_newest start x (take n l)) ≡ take n (insert_newest start x l)
  take-insert-take zero x l = refl
  take-insert-take (suc n) x [] = refl
  take-insert-take (suc n) x (y ∷ l) = elim (Bool-cases (ltb (start y) (start x))) [
    | inl e ↦ rw e (ap (◌∷◌ x) (take-cons-take n y l))
    | inr e ↦ rw e (ap (◌∷◌ y) (take-insert-take n x l))
  ]
