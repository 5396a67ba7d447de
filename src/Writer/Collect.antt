-- ===== src/Writer/Collect.antt =====
-- Which commands one round takes from the queue.
use evald.Prelude.{
  ℕ, zero, suc, ◌≤◌, ◌≡◌, refl, ap, false, List, [], ◌∷◌, ◌++◌, length, arith, Bool-cases, inl, inr,
}
use evald.Writer.{Cmd, is_seal, fill, next_group}

-- No command before the last one is a seal.
abbrev pub SealsLast : List Cmd → Type 0
SealsLast [] = Unit
SealsLast (cmd ∷ []) = Unit
SealsLast (cmd ∷ next ∷ rest) = (is_seal cmd ≡ false) × SealsLast (next ∷ rest)

abbrev Fills : ℕ → Cmd → List Cmd → List Cmd × List Cmd → Type 0
Fills room last queue taken =
    (taken.0 ++ taken.1 ≡ queue) × (length taken.0 ≤ room) × SealsLast (last ∷ taken.0)

fill-Fills :
    (room : ℕ) (last : Cmd) (queue : List Cmd) → Fills room last queue (fill room last queue)
unfolding fill
fill-Fills zero last queue = (refl, omega arith, tt)
fill-Fills (suc room) last [] = (refl, omega arith, tt)
fill-Fills (suc room) last (cmd ∷ queue) =
    let (kept, short, seals) = fill-Fills room cmd queue in
    elim (Bool-cases (is_seal last)) [
      | inl e ↦ rw e (refl, omega arith, tt)
      | inr e ↦ rw e (ap (◌∷◌ cmd) kept, omega arith, (e, seals))
    ]

-- A round takes the commands from the front of the queue, in order and at most 128 of them, and no
-- command stands behind a seal.
pub next_group_lem :
    (first : Cmd) (queue : List Cmd)
    → ((next_group first queue).0 ++ (next_group first queue).1 ≡ first ∷ queue)
      × (length (next_group first queue).0 ≤ 128)
      × SealsLast (next_group first queue).0
unfolding next_group
next_group_lem first queue =
    let (kept, short, seals) = fill-Fills 127 first queue in
    (ap (◌∷◌ first) kept, omega arith, seals)
