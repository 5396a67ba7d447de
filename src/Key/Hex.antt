-- ===== src/Key/Hex.antt =====
-- `decode_hex` against the lower-case hex of some bytes.
use evald.Prelude.{
  ℕ, ◌+◌, ◌*◌, ◌/◌, ◌%◌, ◌<◌, ◌≡◌, ◌↔◌, refl, ap, none, some, List, [], ◌∷◌, Text, length, All, ltb,
  nat_beq, nat_beq_iff, if◌then◌else◌, arith,
}
use mathlib.Core.Path.{subst}
use evald.Prelude.Options.{>>=-eq-some}
use evald.Key.{nibble, decode_pairs, decode_hex}

abbrev pub IsByte : ℕ → Type 0
IsByte b = b < 256

-- The lower-case hex digit of a number below 16, and the hex of some bytes.
abbrev pub digit : ℕ → ℕ
digit n = if ltb n 10 then n + b'0' else n + 87

abbrev pub hex : List ℕ → Text
hex [] = []
hex (b ∷ bs) = digit (b / 16) ∷ digit (b % 16) ∷ hex bs

nibble-digit : (n : ℕ) → n < 16 → nibble (digit n) ≡ some n
unfolding nibble
nibble-digit n h = ground arith

digit-nibble : (c n : ℕ) → nibble c ≡ some n → (digit n ≡ c) × (n < 16)
unfolding nibble
digit-nibble c n h = ground arith

length-hex : (bs : List ℕ) → length (hex bs) ≡ length bs * 2
length-hex [] = omega arith
length-hex (b ∷ bs) = omega (arith, length-hex bs)

decode_pairs-hex : (bs : List ℕ) → All IsByte bs → decode_pairs (hex bs) ≡ some bs
unfolding decode_pairs
decode_pairs-hex [] h = refl
decode_pairs-hex (b ∷ bs) h =
    rw
      (
        nibble-digit (b / 16) (omega arith),
        nibble-digit (b % 16) (omega arith),
        decode_pairs-hex bs h.1,
      )
      (ap (λ (x : ℕ). some (x ∷ bs)) (omega arith))

-- What one step of the loop accepts.
pair_digits :
    (a b hi lo : ℕ)
    → nibble a ≡ some hi
    → nibble b ≡ some lo
    → (digit ((hi * 16 + lo) / 16) ≡ a) × (digit ((hi * 16 + lo) % 16) ≡ b) × (hi * 16 + lo < 256)
pair_digits a b hi lo p q =
    let (da, la) = digit-nibble a hi p in
    let (db, lb) = digit-nibble b lo q in
    let e : (hi * 16 + lo) / 16 ≡ hi = omega arith in
    let f : (hi * 16 + lo) % 16 ≡ lo = omega arith in (rw e da, rw f db, omega arith)

-- One successful step of the loop, taken apart.
decode_pairs-step :
    (a b : ℕ) (rest : Text) (out : List ℕ)
    → decode_pairs (a ∷ b ∷ rest) ≡ some out
    → (hi : ℕ) × (lo : ℕ) × (bs : List ℕ) × (nibble a ≡ some hi)
      × (nibble b ≡ some lo)
      × (decode_pairs rest ≡ some bs)
      × ((hi * 16 + lo) ∷ bs ≡ out)
unfolding decode_pairs
decode_pairs-step a b rest out h =
    let (hi, p, h₁) = >>=-eq-some (nibble a) _ h in
    let (lo, q, h₂) = >>=-eq-some (nibble b) _ h₁ in
    let (bs, r, h₃) = >>=-eq-some (decode_pairs rest) _ h₂ in (hi, lo, bs, p, q, r, cc h₃)

hex_of_nil : (bs : List ℕ) → [] ≡ bs → (hex bs ≡ []) × All IsByte bs
hex_of_nil bs e = subst (λ xs. (hex xs ≡ []) × All IsByte xs) e (refl, tt)

hex-decode_pairs :
    (s : Text) (bs : List ℕ) → decode_pairs s ≡ some bs → (hex bs ≡ s) × All IsByte bs
hex-decode_pairs [] bs h = hex_of_nil bs (unfold decode_pairs in cc h)
hex-decode_pairs (a ∷ []) bs h = unfold decode_pairs in cc h
hex-decode_pairs (a ∷ b ∷ rest) out h =
    let (hi, lo, bs, p, q, r, e) = decode_pairs-step a b rest out h in
    let (da, db, small) = pair_digits a b hi lo p q in
    let (same, bounded) = hex-decode_pairs rest bs r in
    subst (λ bs. (hex bs ≡ a ∷ b ∷ rest) × All IsByte bs) e (cc (da, db, same), (small, bounded))

-- `decode_hex::<N>` succeeds exactly on the lower-case hex of N bytes, and returns them.
pub decode_hex_iff :
    (n : ℕ) (s : Text) (bs : List ℕ)
    → (decode_hex n s ≡ some bs) ↔ ((length bs ≡ n) × All IsByte bs × (hex bs ≡ s))
unfolding decode_hex
decode_hex_iff n s bs = (decoded, encoded)
  where
    decoded :
        (if nat_beq (length s) (n * 2) then decode_pairs s else none) ≡ some bs
        → (length bs ≡ n) × All IsByte bs × (hex bs ≡ s)
    decoded h =
        let sized : length s ≡ n * 2 = ground arith in
        let (same, bounded) = hex-decode_pairs s bs (ground arith) in
        (omega (arith, length-hex bs, ap length same), bounded, same)

    encoded :
        (length bs ≡ n) × All IsByte bs × (hex bs ≡ s)
        → (if nat_beq (length s) (n * 2) then decode_pairs s else none) ≡ some bs
    encoded (e, bounded, same) =
        let sized : length s ≡ n * 2 = omega (arith, length-hex bs, ap length same) in
        rw ((nat_beq_iff (length s) (n * 2)).1 sized, ← same) (decode_pairs-hex bs bounded)
