-- ===== src/Key/Injective.antt =====
-- When two identities share a de-duplication key.
use evald.Prelude.{
  ℕ, ◌≡◌, refl, ap, none, some, Option, List, ◌++◌, Text, length, take, drop, take-append,
  drop-append,
}
use evald.Key.{decode_hex, join_ids, key_of}
use evald.Key.Hex.{decode_hex_iff}

-- Two joined pairs whose first halves have one length are the same pair.
append-injective :
    (ws xs ys zs : List ℕ) → length ws ≡ length ys → ws ++ xs ≡ ys ++ zs → (ws ≡ ys) × (xs ≡ zs)
append-injective ws xs ys zs e h = (
  cc (
    take-append ws xs,
    take-append ys zs,
    ap (λ (n : ℕ). take n (ws ++ xs)) e,
    ap (take (length ys)) h,
  ),
  cc (
    drop-append ws xs,
    drop-append ys zs,
    ap (λ (n : ℕ). drop n (ws ++ xs)) e,
    ap (drop (length ys)) h,
  ),
)

-- A successful decode determines the text.
decode_hex-injective :
    (n : ℕ) (s u : Text) (bs : List ℕ) → decode_hex n s ≡ some bs → decode_hex n u ≡ some bs → s ≡ u
decode_hex-injective n s u bs p q =
    cc (((decode_hex_iff n s bs).0 p).2, ((decode_hex_iff n u bs).0 q).2)

length-decode_hex : (n : ℕ) (s : Text) (bs : List ℕ) → decode_hex n s ≡ some bs → length bs ≡ n
length-decode_hex n s bs p = ((decode_hex_iff n s bs).0 p).0

-- The key as a function of two decoded ids, apart from the ids themselves.
join_ids-injective :
    (t s u v : Text) (dt ds du dv : Option (List ℕ))
    → decode_hex 16 t ≡ dt
    → decode_hex 8 s ≡ ds
    → decode_hex 16 u ≡ du
    → decode_hex 8 v ≡ dv
    → join_ids t s dt ds ≡ join_ids u v du dv
    → (t ≡ u) × (s ≡ v)
join_ids-injective t s u v (some a) (some b) (some c) (some d) p q p' q' h =
    let (e, f) =
      append-injective a b c d (cc (length-decode_hex 16 t a p, length-decode_hex 16 u c p'))
        (cc h) in
    (decode_hex-injective 16 t u c (cc (p, e)) p', decode_hex-injective 8 s v d (cc (q, f)) q')
join_ids-injective t s u v (some a) (some b) (some c) none p q p' q' h = cc h
join_ids-injective t s u v (some a) (some b) none dv p q p' q' h = cc h
join_ids-injective t s u v (some a) none (some c) (some d) p q p' q' h = cc h
join_ids-injective t s u v (some a) none (some c) none p q p' q' h = (cc h, cc h)
join_ids-injective t s u v (some a) none none dv p q p' q' h = (cc h, cc h)
join_ids-injective t s u v none ds (some c) (some d) p q p' q' h = cc h
join_ids-injective t s u v none ds (some c) none p q p' q' h = (cc h, cc h)
join_ids-injective t s u v none ds none dv p q p' q' h = (cc h, cc h)

-- Two spans have equal de-duplication keys only if both of their ids are equal, whether the ids
-- are canonical hex or not.
pub key_of-injective : (t s u v : Text) → key_of t s ≡ key_of u v → (t ≡ u) × (s ≡ v)
unfolding key_of
key_of-injective t s u v h =
    join_ids-injective t s u v (decode_hex 16 t) (decode_hex 8 s) (decode_hex 16 u) (decode_hex 8 v)
      refl refl refl refl h
