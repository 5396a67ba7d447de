-- ===== src/Prelude/Maps.antt =====
-- `BTreeMap`: an association list in ascending key order. Reading and removing look at every
-- entry, so their laws do not rest on the order.
use mathlib.Core.Path.{◌≡◌, refl}
use mathlib.Core.Bool.{Bool, true, false, not, ◌&&◌}
use mathlib.Core.Option.{Option, none, some}
use mathlib.Core.List.{List, [], ◌∷◌, map}
use native.Mathlib.Omega.{arith}
use Prim.Native.Nat.{ℕ}
use evald.Prelude.Tests.{ltb, nat_beq, if◌then◌else◌}
use evald.Prelude.Equality.{Eq, ◌==◌, Text}
use evald.Prelude.Sets.{contains}

-- `Ord`, as the maps use it.
pub record Less {ℓ} (K : Type ℓ) : Type ℓ where
  pub less : K → K → Bool

instance abbrev pub nat_less : Less ℕ
nat_less = record { less = ltb }

-- Strings compare by their bytes.
abbrev pub text_ltb : Text → Text → Bool
text_ltb [] [] = false
text_ltb [] (y ∷ ys) = true
text_ltb (x ∷ xs) [] = false
text_ltb (x ∷ xs) (y ∷ ys) = if ltb x y then true else if nat_beq x y then text_ltb xs ys else false

instance abbrev pub text_less : Less Text
text_less = record { less = text_ltb }

abbrev pub Map {ℓ κ} : Type ℓ → Type κ → Type (ℓ ⊔ κ)
Map K V = List (K × V)

module _ {ℓ κ} {K : Type ℓ} {V : Type κ} where
  abbrev pub keys : Map K V → List K
  keys = map (λ e. e.0)

  abbrev pub values : Map K V → List V
  values = map (λ e. e.1)

module _ {ℓ κ} {K : Type ℓ} {V : Type κ} ⦃e : Eq K⦄ where
  abbrev pub get : K → Map K V → Option V
  get k [] = none
  get k ((j, v) ∷ m) = if j == k then some v else get k m

  abbrev pub delete : K → Map K V → Map K V
  delete k [] = []
  delete k ((j, v) ∷ m) = if j == k then delete k m else (j, v) ∷ delete k m

  pub get-delete : (k q : K) (m : Map K V) → get q (delete k m) ≡ (if k == q then none else get q m)
  get-delete k q [] = ground arith
  get-delete k q ((j, v) ∷ m) =
      ground (arith, get-delete k q m, e.beq_iff j k, e.beq_iff j q, e.beq_iff k q)

  pub keys-delete :
      (k q : K) (m : Map K V)
      → contains (keys (delete k m)) q ≡ (not (k == q) && contains (keys m) q)
  keys-delete k q [] = ground arith
  keys-delete k q ((j, v) ∷ m) =
      ground (arith, keys-delete k q m, e.beq_iff j k, e.beq_iff j q, e.beq_iff k q)

module _ {ℓ κ} {K : Type ℓ} {V : Type κ} ⦃e : Eq K⦄ ⦃o : Less K⦄ where
  -- `map.insert(k, v)`
  abbrev pub put : K → V → Map K V → Map K V
  put k v [] = (k, v) ∷ []
  put k v ((j, w) ∷ m) =
      if j == k then (k, v) ∷ m else if o.less k j then (k, v) ∷ (j, w) ∷ m else (j, w) ∷ put k v m

  pub get-put :
      (k q : K) (v : V) (m : Map K V) → get q (put k v m) ≡ (if k == q then some v else get q m)
  get-put k q v [] = refl
  get-put k q v ((j, w) ∷ m) =
      ground (arith, get-put k q v m, e.beq_iff j k, e.beq_iff j q, e.beq_iff k q)

  pub keys-put :
      (k q : K) (v : V) (m : Map K V)
      → contains (keys (put k v m)) q ≡ (if k == q then true else contains (keys m) q)
  keys-put k q v [] = refl
  keys-put k q v ((j, w) ∷ m) =
      ground (arith, keys-put k q v m, e.beq_iff j k, e.beq_iff j q, e.beq_iff k q)

pub contains-get {ℓ κ} :
    {K : Type ℓ} {V : Type κ} ⦃e : Eq K⦄ (k : K) (v : V) (m : Map K V)
    → get k m ≡ some v
    → contains (keys m) k ≡ true
contains-get k v [] h = cc
contains-get ⦃e⦄ k v ((j, w) ∷ m) h = ground (arith, contains-get k v m)
