-- ===== src/Prelude/Decimal.antt =====
-- `{n}`, `{n:020}` and `str::parse::<u64>`.
use Prim.Native.Nat.{ℕ, zero, suc, ◌+◌, ◌-◌, ◌*◌, ◌/◌, ◌%◌, ◌^◌, ◌<◌, ◌≤◌}
use mathlib.Core.Path.{◌≡◌, refl, ◌∙◌}
use mathlib.Core.Bool.{Bool, true, false, ◌&&◌}
use mathlib.Core.Option.{Option, none, some}
use mathlib.Core.List.{[], ◌∷◌, ◌++◌}
use native.Mathlib.Omega.{arith}
use evald.Prelude.Tests.{ltb, leb, nat_beq, if◌then◌else◌, Bool-cases}
use mathlib.Core.Logic.{inl, inr}
use evald.Prelude.Lists.{length, All}
use evald.Prelude.Equality.{Text}

abbrev pub digits : ℕ → ℕ → Text → Text
digits zero n rest = rest
digits (suc fuel) n rest =
    let shown = (n % 10 + b'0') ∷ rest in
    let more = digits fuel (n / 10) shown in if ltb n 10 then shown else more

-- A `u64` has at most 20 digits.
abbrev pub decimal : ℕ → Text
decimal n = digits 20 n []

abbrev pub zeros : ℕ → Text
zeros zero = []
zeros (suc n) = b'0' ∷ zeros n

abbrev pub padded : ℕ → Text
padded n = zeros (20 - length (decimal n)) ++ decimal n

abbrev pub is_ascii_digit : ℕ → Bool
is_ascii_digit c = leb b'0' c && leb c b'9'

-- The digits behind a number that was read, with the checks of the multiplication and the sum.
abbrev pub parse_digits : Text → ℕ → Option ℕ
parse_digits [] n = some n
parse_digits (c ∷ rest) n =
    if is_ascii_digit c && ltb (n * 10 + (c - b'0')) (2 ^ 64)
    then parse_digits rest (n * 10 + (c - b'0'))
    else none

abbrev nonempty : Text → Option ℕ
nonempty [] = none
nonempty (c ∷ rest) = parse_digits (c ∷ rest) 0

-- `s.parse::<u64>().ok()`: a `+` may stand in front.
abbrev pub parse_u64 : Text → Option ℕ
parse_u64 [] = none
parse_u64 (c ∷ rest) = if nat_beq c b'+' then nonempty rest else nonempty (c ∷ rest)

abbrev pow10 : ℕ → ℕ
pow10 zero = 1
pow10 (suc k) = 10 * pow10 k

parse_digits_last :
    (n : ℕ) (rest : Text)
    → n < 2 ^ 64
    → parse_digits ((n % 10 + b'0') ∷ rest) (n / 10) ≡ parse_digits rest n
parse_digits_last n rest h = ground arith

parse_digits-digits :
    (fuel n : ℕ) (rest : Text)
    → n < 10 * pow10 fuel
    → n < 2 ^ 64
    → parse_digits (digits (suc fuel) n rest) 0 ≡ parse_digits rest n
parse_digits-digits zero n rest h fits = ground arith
parse_digits-digits (suc fuel) n rest h fits = elim (Bool-cases (ltb n 10)) [
  | inl small ↦ ground arith
  | inr large ↦ rw large (
      parse_digits-digits fuel (n / 10) ((n % 10 + b'0') ∷ rest) (omega arith) (omega arith)
      ∙ parse_digits_last n rest fits)
]

-- Every byte is a digit.
abbrev pub AreDigits : Text → Type 0
AreDigits = All (λ (c : ℕ). is_ascii_digit c ≡ true)

digits-AreDigits : (fuel n : ℕ) (rest : Text) → AreDigits rest → AreDigits (digits fuel n rest)
digits-AreDigits zero n rest h = h
digits-AreDigits (suc fuel) n rest h =
    let shown : AreDigits ((n % 10 + b'0') ∷ rest) = (ground arith, h) in
    elim (Bool-cases (ltb n 10)) [
      | inl small ↦ rw small shown
      | inr large ↦ rw large (digits-AreDigits fuel (n / 10) ((n % 10 + b'0') ∷ rest) shown)
    ]

length-digits : (fuel n : ℕ) (rest : Text) → length rest ≤ length (digits fuel n rest)
length-digits zero n rest = omega arith
length-digits (suc fuel) n rest =
    ground (arith, length-digits fuel (n / 10) ((n % 10 + b'0') ∷ rest))

length-decimal-pos : (n : ℕ) → 0 < length (decimal n)
length-decimal-pos n = ground (arith, length-digits 19 (n / 10) ((n % 10 + b'0') ∷ []))

pub decimal-AreDigits : (n : ℕ) → AreDigits (decimal n)
decimal-AreDigits n = digits-AreDigits 20 n [] tt

AreDigits-append : (k : ℕ) (s : Text) → AreDigits s → AreDigits (zeros k ++ s)
AreDigits-append zero s h = h
AreDigits-append (suc k) s h = (refl, AreDigits-append k s h)

pub padded-AreDigits : (n : ℕ) → AreDigits (padded n)
padded-AreDigits n = AreDigits-append (20 - length (decimal n)) (decimal n) (decimal-AreDigits n)

parse_digits-zeros : (k : ℕ) (s : Text) → parse_digits (zeros k ++ s) 0 ≡ parse_digits s 0
parse_digits-zeros zero s = refl
parse_digits-zeros (suc k) s = parse_digits-zeros k s

length-zeros-append : (k : ℕ) (s : Text) → 0 < length s → 0 < length (zeros k ++ s)
length-zeros-append zero s h = h
length-zeros-append (suc k) s h = omega arith

parse_u64-digits : (s : Text) → AreDigits s → 0 < length s → parse_u64 s ≡ parse_digits s 0
parse_u64-digits [] d h = absurd (omega arith)
parse_u64-digits (c ∷ rest) d h =
    let plain : nat_beq c b'+' ≡ false = ground (arith, d.0) in rw plain refl

-- What is printed is read back.
pub parse_u64-decimal : (n : ℕ) → n < 2 ^ 64 → parse_u64 (decimal n) ≡ some n
parse_u64-decimal n h =
    parse_u64-digits (decimal n) (decimal-AreDigits n) (length-decimal-pos n)
    ∙ parse_digits-digits 19 n [] (omega arith) h

pub parse_u64-padded : (n : ℕ) → n < 2 ^ 64 → parse_u64 (padded n) ≡ some n
parse_u64-padded n h =
    let k = 20 - length (decimal n) in
    parse_u64-digits (padded n) (padded-AreDigits n)
      (length-zeros-append k (decimal n) (length-decimal-pos n))
    ∙ parse_digits-zeros k (decimal n)
    ∙ parse_digits-digits 19 n [] (omega arith) h

pub length-padded-pos : (n : ℕ) → 0 < length (padded n)
length-padded-pos n =
    length-zeros-append (20 - length (decimal n)) (decimal n) (length-decimal-pos n)
