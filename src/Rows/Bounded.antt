-- ===== src/Rows/Bounded.antt =====
-- The bounded selection of `TopN` and the stable newest-first sort.
use evald.Prelude.{
  ℕ, zero, suc, ◌+◌, ◌≤◌, ◌<◌, ◌≡◌, refl, ap, ◌∙◌, sym, List, [], ◌∷◌, length, take, All, ltb,
  Bool-cases, inl, inr, arith, length-take, take_of_length-le,
}
use evald.Rows.{
  Loser, TopN, beats, heap_push, heap_pop, items, top_new, top_push, top_into_vec, insert_newest,
  sort_onto, sort_newest,
}
use evald.Rows.Order.{take-insert-take}

module _ {ℓ} {T : Type ℓ} (start : T → ℕ) where
  -- `top` holds the first `limit` of `sorted`, each entry under its own start time and with a
  -- number that no later entry gets.
  pub record Holds (top : TopN T) (sorted : List T) : Type ℓ where
    pub content : items top.heap ≡ take top.limit sorted
    pub starts : All (λ (l : Loser T). l.start ≡ start l.item) top.heap
    pub fresh : All (λ (l : Loser T). l.seq < top.seq) top.heap

  items-heap_push :
      (x : Loser T) (heap : List (Loser T))
      → x.start ≡ start x.item
      → All (λ l. l.start ≡ start l.item) heap
      → All (λ l. l.seq < x.seq) heap
      → items (heap_push x heap) ≡ insert_newest start x.item (items heap)
  items-heap_push x [] e h k = refl
  items-heap_push x (y ∷ heap) e h k = ground (arith, items-heap_push x heap e h.1 k.1)

  items-heap_pop :
      (n : ℕ) (heap : List (Loser T))
      → length heap ≡ suc n
      → items (heap_pop heap) ≡ take n (items heap)
  items-heap_pop n [] h = absurd (omega arith)
  items-heap_pop zero (x ∷ []) h = refl
  items-heap_pop (suc n) (x ∷ []) h = absurd (omega arith)
  items-heap_pop zero (x ∷ y ∷ heap) h = absurd (omega arith)
  items-heap_pop (suc n) (x ∷ y ∷ heap) h =
      ap (◌∷◌ x.item) (items-heap_pop n (y ∷ heap) (omega arith))

  length-heap_push :
      (x : Loser T) (heap : List (Loser T)) → length (heap_push x heap) ≡ suc (length heap)
  length-heap_push x [] = refl
  length-heap_push x (y ∷ heap) = ground (arith, length-heap_push x heap)

  length-items : (heap : List (Loser T)) → length (items heap) ≡ length heap
  length-items [] = refl
  length-items (x ∷ heap) = ap suc (length-items heap)

  All-heap_push :
      (P : Loser T → Type 0) (x : Loser T) (heap : List (Loser T))
      → P x
      → All P heap
      → All P (heap_push x heap)
  All-heap_push P x [] p h = (p, tt)
  All-heap_push P x (y ∷ heap) p h = elim (Bool-cases (beats x y)) [
    | inl e ↦ rw e (p, h)
    | inr e ↦ rw e (h.0, All-heap_push P x heap p h.1)
  ]

  All-heap_pop : (P : Loser T → Type 0) (heap : List (Loser T)) → All P heap → All P (heap_pop heap)
  All-heap_pop P [] h = tt
  All-heap_pop P (x ∷ []) h = tt
  All-heap_pop P (x ∷ y ∷ heap) h = (h.0, All-heap_pop P (y ∷ heap) h.1)

  older :
      (n : ℕ) (heap : List (Loser T)) → All (λ l. l.seq < n) heap → All (λ l. l.seq < n + 1) heap
  older n [] h = tt
  older n (l ∷ heap) h = (omega arith, older n heap h.1)

  top_new-Holds : (limit : ℕ) → Holds (top_new limit) []
  unfolding top_new
  top_new-Holds zero = record { content = refl; starts = tt; fresh = tt }
  top_new-Holds (suc limit) = record { content = refl; starts = tt; fresh = tt }

  -- One push keeps the first `limit` of the sort, grown by the pushed item.
  pub top_push-Holds :
      (top : TopN T) (sorted : List T) (x : T)
      → Holds top sorted
      → Holds (top_push top (start x) x) (insert_newest start x sorted)
  unfolding top_push
  top_push-Holds top sorted x h = elim (Bool-cases (ltb top.limit (length heap))) [
    | inl over ↦ rw over (record {
      content =
          items-heap_pop top.limit heap (ground (arith, length-heap_push entry top.heap, bounded))
          ∙ ap (take top.limit) pushed
          ∙ take-insert-take start top.limit x sorted;
      starts = All-heap_pop (λ l. l.start ≡ start l.item) heap starts;
      fresh = All-heap_pop (λ l. l.seq < top.seq + 1) heap fresh;
    })
    | inr fits ↦ rw fits (record {
      content =
          sym (take_of_length-le top.limit (items heap) (ground (arith, length-items heap)))
          ∙ ap (take top.limit) pushed
          ∙ take-insert-take start top.limit x sorted;
      starts = starts;
      fresh = fresh;
    })
  ]
    where
      entry : Loser T
      entry = record { start = start x; seq = top.seq; item = x }

      heap : List (Loser T)
      heap = heap_push entry top.heap

      bounded : length top.heap ≤ top.limit
      bounded = omega (
        arith,
        length-items top.heap,
        length-take top.limit sorted,
        ap (λ (l : List T). length l) h.content,
      )

      pushed : items heap ≡ insert_newest start x (take top.limit sorted)
      pushed =
          items-heap_push entry top.heap refl h.starts h.fresh
          ∙ ap (insert_newest start x) h.content

      starts : All (λ l. l.start ≡ start l.item) heap
      starts = All-heap_push (λ l. l.start ≡ start l.item) entry top.heap refl h.starts

      fresh : All (λ l. l.seq < top.seq + 1) heap
      fresh =
          All-heap_push (λ l. l.seq < top.seq + 1) entry top.heap (omega arith)
            (older top.seq top.heap h.fresh)

  abbrev pub push_all : TopN T → List T → TopN T
  push_all top [] = top
  push_all top (x ∷ xs) = push_all (top_push top (start x) x) xs

  pub push_all-Holds :
      (top : TopN T) (sorted xs : List T)
      → Holds top sorted
      → Holds (push_all top xs) (sort_onto start sorted xs)
  push_all-Holds top sorted [] h = h
  push_all-Holds top sorted (x ∷ xs) h =
      push_all-Holds (top_push top (start x) x) (insert_newest start x sorted) xs
        (top_push-Holds top sorted x h)

  limit-push_all : (top : TopN T) (xs : List T) → (push_all top xs).limit ≡ top.limit
  unfolding top_push
  limit-push_all top [] = refl
  limit-push_all top (x ∷ xs) = limit-push_all (top_push top (start x) x) xs

  -- Pushing every candidate through the bounded heap and taking its content gives the first
  -- `limit` rows of the stable newest-first sort of the candidates.
  pub top_into_vec-push_all :
      (limit : ℕ) (xs : List T)
      → top_into_vec (push_all (top_new limit) xs) ≡ take limit (sort_newest start xs)
  unfolding top_into_vec sort_newest top_new
  top_into_vec-push_all limit xs =
      let h = push_all-Holds (top_new limit) [] xs (top_new-Holds limit) in
      h.content ∙ ap (λ n. take n (sort_onto start [] xs)) (limit-push_all (top_new limit) xs)
