-- ===== src/Prelude/Options.antt =====
-- `?` on options, as `do` blocks.
use mathlib.Core.Path.{◌≡◌, refl}
use mathlib.Core.Logic.{◌⊎◌, ◌≢◌, inl, inr}
use mathlib.Core.Option.{Option, none, some}

infixl 5 ◌>>=◌
abbrev pub ◌>>=◌ {ℓ κ} : {A : Type ℓ} {B : Type κ} → Option A → (A → Option B) → Option B
none >>= f = none
some a >>= f = f a

-- `Option::unwrap_or`, the option first as in the source.
abbrev pub unwrap_or {ℓ} : {A : Type ℓ} → Option A → A → A
unwrap_or none a = a
unwrap_or (some b) a = b

-- `Option::or`
abbrev pub or_else {ℓ} : {A : Type ℓ} → Option A → Option A → Option A
or_else none other = other
or_else (some a) other = some a

pub or_else-eq-some {ℓ} :
    {A : Type ℓ} (m other : Option A) {a : A}
    → or_else m other ≡ some a
    → (m ≡ some a) ⊎ (other ≡ some a)
or_else-eq-some none other h = inr h
or_else-eq-some (some b) other h = inl h

pub or_else-left {ℓ} : {A : Type ℓ} (m other : Option A) → m ≢ none → or_else m other ≢ none
or_else-left none other h e = h refl
or_else-left (some a) other h e = cc

pub or_else-right {ℓ} : {A : Type ℓ} (m other : Option A) → other ≢ none → or_else m other ≢ none
or_else-right none other h e = h e
or_else-right (some a) other h e = cc

pub >>=-eq-some {ℓ κ} :
    {A : Type ℓ} {B : Type κ} (m : Option A) (f : A → Option B) {b : B}
    → (m >>= f) ≡ some b
    → (a : A) × (m ≡ some a) × (f a ≡ some b)
>>=-eq-some none f h = cc
>>=-eq-some (some a) f h = (a, refl, h)
