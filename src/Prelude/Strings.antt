-- ===== src/Prelude/Strings.antt =====
-- The `str` methods that the program calls, on bytes.
use Prim.Native.Nat.{ℕ, ◌+◌}
use mathlib.Core.Path.{◌≡◌, refl, ap}
use mathlib.Core.Logic.{◌⊎◌, inl, inr}
use mathlib.Core.Bool.{Bool, true, false, ◌&&◌}
use mathlib.Core.Option.{Option, none, some}
use mathlib.Core.List.{List, [], ◌∷◌, ◌++◌, map}
use native.Mathlib.Omega.{arith}
use evald.Prelude.Tests.{leb, nat_beq, nat_beq_iff, Bool-cases, if◌then◌else◌}
use evald.Prelude.Lists.{All}
use evald.Prelude.Equality.{Text, text_beq, text_beq_iff}

-- `u8::to_ascii_lowercase`
abbrev pub lower_byte : ℕ → ℕ
lower_byte b = if leb b'A' b && leb b b'Z' then b + 32 else b

-- `str::to_ascii_lowercase`
abbrev pub to_ascii_lowercase : Text → Text
to_ascii_lowercase = map lower_byte

-- `str::eq_ignore_ascii_case`
abbrev pub eq_ignore_ascii_case : Text → Text → Bool
eq_ignore_ascii_case a b = text_beq (to_ascii_lowercase a) (to_ascii_lowercase b)

-- `str::starts_with`, the prefix second as in the source.
abbrev pub starts_with : Text → Text → Bool
starts_with s [] = true
starts_with [] (p ∷ ps) = false
starts_with (x ∷ xs) (p ∷ ps) = if nat_beq x p then starts_with xs ps else false

-- `str::contains`
abbrev pub contains_str : Text → Text → Bool
contains_str [] needle = starts_with [] needle
contains_str (x ∷ xs) needle = if starts_with (x ∷ xs) needle then true else contains_str xs needle

-- `str::ends_with`
abbrev pub ends_with : Text → Text → Bool
ends_with [] suffix = text_beq [] suffix
ends_with (x ∷ xs) suffix = if text_beq (x ∷ xs) suffix then true else ends_with xs suffix

-- `str::strip_prefix`, the prefix second as in the source.
abbrev pub strip_prefix : Text → Text → Option Text
strip_prefix s [] = some s
strip_prefix [] (p ∷ ps) = none
strip_prefix (x ∷ xs) (p ∷ ps) = if nat_beq x p then strip_prefix xs ps else none

abbrev before_first : ℕ → List Text → List Text
before_first c [] = (c ∷ []) ∷ []
before_first c (part ∷ parts) = (c ∷ part) ∷ parts

-- `str::split` at a byte
abbrev pub split : Text → ℕ → List Text
split [] at = [] ∷ []
split (c ∷ rest) at =
    let parts = split rest at in if nat_beq c at then [] ∷ parts else before_first c parts

-- `[&str]::join`
abbrev pub join : List Text → Text → Text
join [] between = []
join (part ∷ []) between = part
join (part ∷ next ∷ parts) between = part ++ between ++ join (next ∷ parts) between

abbrev behind : ℕ → Option (Text × Text) → Option (Text × Text)
behind c none = none
behind c (some (head, tail)) = some (c ∷ head, tail)

-- `str::split_once` at a byte
abbrev pub split_once : Text → ℕ → Option (Text × Text)
split_once [] at = none
split_once (c ∷ rest) at =
    let later = behind c (split_once rest at) in if nat_beq c at then some ([], rest) else later

abbrev or_here : ℕ → ℕ → Text → Option (Text × Text) → Option (Text × Text)
or_here c at rest none = if nat_beq c at then some ([], rest) else none
or_here c at rest (some (head, tail)) = some (c ∷ head, tail)

-- `str::rsplit_once` at a byte
abbrev pub rsplit_once : Text → ℕ → Option (Text × Text)
rsplit_once [] at = none
rsplit_once (c ∷ rest) at = or_here c at rest (rsplit_once rest at)

-- `s.bytes().all(p)`
abbrev pub all_bytes : (ℕ → Bool) → Text → Bool
all_bytes p [] = true
all_bytes p (c ∷ rest) = p c && all_bytes p rest

pub strip_prefix-append : (p s : Text) → strip_prefix (p ++ s) p ≡ some s
strip_prefix-append [] s = refl
strip_prefix-append (x ∷ p) s = ground (arith, strip_prefix-append p s)

pub split-append :
    (s rest : Text) (at : ℕ)
    → All (λ (c : ℕ). nat_beq c at ≡ false) s
    → split (s ++ at ∷ rest) at ≡ s ∷ split rest at
split-append [] rest at h = rw ((nat_beq_iff at at).1 refl) refl
split-append (c ∷ s) rest at h = rw (h.0) (rw (split-append s rest at h.1) refl)

pub split_none : (s : Text) (at : ℕ) → All (λ (c : ℕ). nat_beq c at ≡ false) s → split s at ≡ s ∷ []
split_none [] at h = refl
split_none (c ∷ s) at h = rw (h.0) (rw (split_none s at h.1) refl)

pub starts_with-append : (p s : Text) → starts_with (p ++ s) p ≡ true
starts_with-append [] s = refl
starts_with-append (x ∷ p) s = ground (arith, starts_with-append p s)

pub text_beq_refl : (a : Text) → text_beq a a ≡ true
text_beq_refl a = (text_beq_iff a a).1 refl

behind-eq-some :
    (c : ℕ) (m : Option (Text × Text)) (head tail : Text)
    → behind c m ≡ some (head, tail)
    → (front : Text) × (m ≡ some (front, tail)) × (head ≡ c ∷ front)
behind-eq-some c none head tail h = cc
behind-eq-some c (some (front, t)) head tail h = (front, cc, cc)

pub split_once_lem :
    (s head tail : Text) (at : ℕ) → split_once s at ≡ some (head, tail) → s ≡ head ++ at ∷ tail
split_once_lem [] head tail at h = cc
split_once_lem (c ∷ rest) head tail at h = elim (Bool-cases (nat_beq c at)) [
  | inl same ↦ ground (arith, h, same, (nat_beq_iff c at).0 same)
  | inr differs ↦
      let later : behind c (split_once rest at) ≡ some (head, tail) = rw (differs) at h in
      let (front, found, e) = behind-eq-some c (split_once rest at) head tail later in
      rw e (ap (λ (t : Text). c ∷ t) (split_once_lem rest front tail at found))
]

or_here-eq-some :
    (c at : ℕ) (rest : Text) (m : Option (Text × Text)) (head tail : Text)
    → or_here c at rest m ≡ some (head, tail)
    → ((front : Text) × (m ≡ some (front, tail)) × (head ≡ c ∷ front))
      ⊎ ((c ≡ at) × (head ≡ []) × (tail ≡ rest))
or_here-eq-some c at rest none head tail h = elim (Bool-cases (nat_beq c at)) [
  | inl same ↦ inr (ground (arith, h, (nat_beq_iff c at).0 same))
  | inr differs ↦ absurd (ground (arith, h, differs))
]
or_here-eq-some c at rest (some (front, t)) head tail h = inl (front, cc, cc)

pub rsplit_once_lem :
    (s head tail : Text) (at : ℕ) → rsplit_once s at ≡ some (head, tail) → s ≡ head ++ at ∷ tail
rsplit_once_lem [] head tail at h = cc
rsplit_once_lem (c ∷ rest) head tail at h =
    elim (or_here-eq-some c at rest (rsplit_once rest at) head tail h) [
      | inl (front, found, e) ↦
          rw e (ap (λ (t : Text). c ∷ t) (rsplit_once_lem rest front tail at found))
      | inr (same, none_before, e) ↦ rw (same, none_before, e) refl
    ]

-- The byte does not occur.
abbrev pub Without : ℕ → Text → Type 0
Without at = All (λ (c : ℕ). nat_beq c at ≡ false)

pub split_once-append :
    (s rest : Text) (at : ℕ) → Without at s → split_once (s ++ at ∷ rest) at ≡ some (s, rest)
split_once-append [] rest at h = rw ((nat_beq_iff at at).1 refl) refl
split_once-append (c ∷ s) rest at h = rw (split_once-append s rest at h.1, h.0) refl

pub split_once-none : (s : Text) (at : ℕ) → Without at s → split_once s at ≡ none
split_once-none [] at h = refl
split_once-none (c ∷ s) at h = rw (split_once-none s at h.1, h.0) refl

rsplit_once-none : (s : Text) (at : ℕ) → Without at s → rsplit_once s at ≡ none
rsplit_once-none [] at h = refl
rsplit_once-none (c ∷ s) at h = rw (rsplit_once-none s at h.1, h.0) refl

pub rsplit_once-append :
    (s rest : Text) (at : ℕ) → Without at rest → rsplit_once (s ++ at ∷ rest) at ≡ some (s, rest)
rsplit_once-append [] rest at h = rw (rsplit_once-none rest at h, (nat_beq_iff at at).1 refl) refl
rsplit_once-append (c ∷ s) rest at h = rw (rsplit_once-append s rest at h) refl
