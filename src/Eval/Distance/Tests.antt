-- ===== src/Eval/Distance/Tests.antt =====
-- A distance at work.
use evald.Prelude.{ℕ, ◌≤◌, ◌≡◌, refl, bytes}
use evald.Eval.Distance.{levenshtein}
use evald.Eval.Distance.Least.{Edits, levenshtein_lem}

kitten : levenshtein (bytes "kitten") (bytes "sitting") ≡ 3
unfolding levenshtein
kitten = refl

levenshtein_lem_example :
    Edits (bytes "kitten") (bytes "sitting") (levenshtein (bytes "kitten") (bytes "sitting"))
    × ((n : ℕ)
        → Edits (bytes "kitten") (bytes "sitting") n
        → levenshtein (bytes "kitten") (bytes "sitting") ≤ n)
levenshtein_lem_example = levenshtein_lem (bytes "kitten") (bytes "sitting")
