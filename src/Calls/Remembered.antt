-- ===== src/Calls/Remembered.antt =====
-- The set and the queue of the ledger.
use evald.Prelude.{
  ℕ, zero, suc, ◌-◌, ◌≤◌, ◌≡◌, refl, ap, ◌∙◌, sym, false, List, [], ◌∷◌, ◌++◌, Text, text_eq,
  text_beq_iff, contains, insert, remove, IsDistinct, contains-append, contains-remove, length,
  drop, length-drop, if◌then◌else◌, arith, Bool-cases, inl, inr,
}
use evald.Calls.{CallLedger, remember_each, forget, remembered, remember}

-- The set holds what the queue holds, once each.
abbrev Agree : List Text × List Text → Type 0
Agree r = IsDistinct r.1 × ((k : Text) → contains r.0 k ≡ contains r.1 k)

pub record IsSound (ledger : CallLedger) : Type 0 where
  pub distinct : IsDistinct ledger.order
  pub same : (k : Text) → contains ledger.set k ≡ contains ledger.order k
  pub bounded : length ledger.order ≤ ledger.capacity

append_one-IsDistinct :
    (l : List Text) (k : Text) → IsDistinct l → contains l k ≡ false → IsDistinct (l ++ k ∷ [])
append_one-IsDistinct [] k d h = (refl, tt)
append_one-IsDistinct (x ∷ l) k d h = (
  ground (arith, d.0, contains-append l (k ∷ []) x, text_beq_iff k x, text_beq_iff x k),
  append_one-IsDistinct l k d.1 (ground arith),
)

step-Agree :
    (set order : List Text) (k : Text)
    → Agree (set, order)
    → Agree (insert k set, if contains set k then order else order ++ k ∷ [])
step-Agree set order k h = elim (Bool-cases (contains set k)) [
  | inl old ↦ rw old h
  | inr new ↦ rw new (
    append_one-IsDistinct order k h.0 (sym (h.1 k) ∙ new),
    λ j. ground (arith, h.1 j, contains-append order (k ∷ []) j),
  )
]

remember_each-Agree :
    (set order keys : List Text) → Agree (set, order) → Agree (remember_each set order keys)
remember_each-Agree set order [] h = h
remember_each-Agree set order (k ∷ keys) h =
    remember_each-Agree (insert k set) (if contains set k then order else order ++ k ∷ []) keys
      (step-Agree set order k h)

forget-Agree : (n : ℕ) (set order : List Text) → Agree (set, order) → Agree (forget n set order)
forget-Agree zero set order h = h
forget-Agree (suc n) set [] h = h
forget-Agree (suc n) set (old ∷ order) h =
    forget-Agree n (remove old set) order
      (h.0.1, λ k. ground (arith, contains-remove old k set, h.1 k, h.0.0, text_beq_iff old k))

order-forget : (n : ℕ) (set order : List Text) → (forget n set order).1 ≡ drop n order
order-forget zero set order = refl
order-forget (suc n) set [] = refl
order-forget (suc n) set (old ∷ order) = order-forget n (remove old set) order

remembered-IsSound :
    (ledger : CallLedger) (r : List Text × List Text) → Agree r → IsSound (remembered ledger r)
remembered-IsSound ledger (set, order) h =
    let n = length order - ledger.capacity in
    let (distinct, same) = forget-Agree n set order h in
    record {
      distinct = distinct;
      same = same;
      bounded = omega (
        arith,
        ap (λ (l : List Text). length l) (order-forget n set order),
        length-drop {0} n order,
      );
    }

-- Remembering keys keeps the ledger sound: the queue holds each key of the set once, and no more
-- keys than the capacity.
pub remember-IsSound :
    (ledger : CallLedger) (keys : List Text) → IsSound ledger → IsSound (remember ledger keys)
unfolding remember
remember-IsSound ledger [] h = h
remember-IsSound ledger (k ∷ keys) h =
    remembered-IsSound ledger (remember_each ledger.set ledger.order (k ∷ keys))
      (remember_each-Agree ledger.set ledger.order (k ∷ keys) (h.distinct, h.same))
