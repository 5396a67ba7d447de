-- ===== src/Cost/Query/Laws.antt =====
-- What the patterns of the query find in a text.
use evald.Prelude.{
  ◌≡◌, refl, ap, ◌∙◌, Bool, true, false, not, [], ◌∷◌, ◌++◌, Text, bytes, nat_beq, Bool-cases, inl,
  inr, arith, Without, all,
}
use evald.Cost.Query.{any_tail, like, basis_pattern}

any_tail-append :
    (f : Text → Bool) (front rest : Text)
    → any_tail f rest ≡ true
    → any_tail f (front ++ rest) ≡ true
any_tail-append f [] rest h = h
any_tail-append f (c ∷ front) rest h = ground (arith, any_tail-append f front rest h)

any_tail_here : (f : Text → Bool) (s : Text) → f s ≡ true → any_tail f s ≡ true
any_tail_here f [] h = h
any_tail_here f (c ∷ s) h = rw h refl

any_text : (s : Text) → any_tail (like []) s ≡ true
any_text [] = refl
any_text (c ∷ s) = any_text s

-- A pattern of single characters is met at the front of a text.
like-rest :
    (p q s : Text)
    → Without b'%' p
    → like (p ++ q) s ≡ true
    → (front : Text) × (rest : Text) × (s ≡ front ++ rest) × (like q rest ≡ true)
like-rest [] q s h m = ([], s, refl, m)
like-rest (x ∷ p) q [] h m = absurd (ground (arith, rw (h.0) at m))
like-rest (x ∷ p) q (c ∷ s) h m =
    let behind : like (p ++ q) s ≡ true = ground (arith, rw (h.0) at m) in
    let (front, rest, e, met) = like-rest p q s h.1 behind in
    (c ∷ front, rest, ap (λ (t : Text). c ∷ t) e, met)

any_tail-found :
    (f : Text → Bool) (s : Text)
    → any_tail f s ≡ true
    → (front : Text) × (rest : Text) × (s ≡ front ++ rest) × (f rest ≡ true)
any_tail-found f [] h = ([], [], refl, h)
any_tail-found f (c ∷ s) h = elim (Bool-cases (f (c ∷ s))) [
  | inl here ↦ ([], c ∷ s, refl, here)
  | inr later ↦
      let (front, rest, e, met) = any_tail-found f s (rw (later) at h) in
      (c ∷ front, rest, ap (λ (t : Text). c ∷ t) e, met)
]

abbrev pub marker : Text
marker = bytes "\"evald.cost.basis\":\""

pub no_percent : (s : Text) → all (λ c. not (nat_beq c b'%')) s ≡ true → Without b'%' s
no_percent [] h = tt
no_percent (c ∷ s) h = (ground (arith, h), no_percent s (ground (arith, h)))

marker_plain : Without b'%' marker
marker_plain = no_percent marker refl

abbrev pub word_pattern : Text → Text
word_pattern word = b'%' ∷ (word ++ bytes "%")

-- A word that stands nowhere in the text does not stand behind the key either.
pub basis_pattern-absent :
    (word json : Text)
    → like (word_pattern word) json ≡ false
    → like (basis_pattern word) json ≡ false
unfolding basis_pattern
basis_pattern-absent word json absent = elim (Bool-cases (like (basis_pattern word) json)) [
  | inr fails ↦ fails
  | inl whole ↦
      let pattern = marker ++ word_pattern word in
      let (front, rest, e, met) = any_tail-found (like pattern) json whole in
      let (key, behind, e2, word_met) =
        like-rest marker (word_pattern word) rest marker_plain met in
      let there : like (word_pattern word) json ≡ true =
        rw (e, e2)
          (any_tail-append (like (word ++ bytes "%")) front (key ++ behind)
            (any_tail-append (like (word ++ bytes "%")) key behind word_met)) in
      absurd (ground (arith, there, absent))
]

like-lead : (p q s : Text) → Without b'%' p → like (p ++ q) (p ++ s) ≡ like q s
like-lead [] q s h = refl
like-lead (x ∷ p) q s h = rw (h.0) (ground (arith, like-lead p q s h.1))

-- A word in the value of the key is found.
pub basis_pattern-present :
    (word front before back : Text)
    → Without b'%' word
    → like (basis_pattern word) (front ++ (marker ++ (before ++ (word ++ back)))) ≡ true
unfolding basis_pattern
basis_pattern-present word front before back plain =
    let pattern = marker ++ word_pattern word in
    let word_met : like (word ++ bytes "%") (word ++ back) ≡ true =
      like-lead word (bytes "%") back plain ∙ any_text back in
    let value_met : like (word_pattern word) (before ++ (word ++ back)) ≡ true =
      any_tail-append (like (word ++ bytes "%")) before (word ++ back)
        (any_tail_here (like (word ++ bytes "%")) (word ++ back) word_met) in
    any_tail-append (like pattern) front (marker ++ (before ++ (word ++ back))) (
      any_tail_here (like pattern) (marker ++ (before ++ (word ++ back)))
        (like-lead marker (word_pattern word) (before ++ (word ++ back)) marker_plain ∙ value_met))
