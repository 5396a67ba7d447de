-- ===== src/Price/Basis/Charged.antt =====
-- That every token of a span is charged once.
use evald.Prelude.{
  ℕ, zero, suc, ◌∙◌, ◌+◌, ◌-◌, ◌%◌, ◌^◌, ◌≤◌, ◌<◌, ◌≡◌, ◌≢◌, refl, sym, true, Option, none, some,
  leb, arith, if◌then◌else◌,
}
use evald.Prelude.Options.{unwrap_or}
use evald.Model.{Tokens}
use evald.Merge.Inputs.{add_u64}
use evald.Price.Basis.{Basis, by_size, by_extra, by_total, detect_basis, Charge, charge}

abbrev prompt : Tokens → ℕ
prompt t = unwrap_or t.prompt 0

abbrev completion : Tokens → ℕ
completion t = unwrap_or t.completion 0

abbrev cache : Tokens → ℕ
cache t = unwrap_or t.cache_read 0 + unwrap_or t.cache_write 0

abbrev reasoning : Tokens → ℕ
reasoning t = unwrap_or t.reasoning 0

-- The four ways in which an instrumentor's counts make up its total.
pub data IsReading (t : Tokens) (total : ℕ) : Type 0 where
  within :
      cache t ≤ prompt t
      → reasoning t ≤ completion t
      → total ≡ prompt t + completion t
      → IsReading t total
  beside_cache :
      cache t ≢ reasoning t
      → reasoning t ≤ completion t
      → total ≡ prompt t + completion t + cache t
      → IsReading t total
  beside_reasoning :
      cache t ≢ reasoning t
      → cache t ≤ prompt t
      → total ≡ prompt t + completion t + reasoning t
      → IsReading t total
  beside_both : total ≡ prompt t + completion t + cache t + reasoning t → IsReading t total

abbrev pub FitsU64 : Tokens → Type 0
FitsU64 t = prompt t + completion t + cache t + reasoning t < 2 ^ 64

abbrev pub all_charged : Charge → ℕ
all_charged ch = ch.uncached + ch.cr + ch.cw + ch.text_out + ch.reasoning_out

abbrev charged_of : Basis → ℕ → ℕ → ℕ → ℕ → ℕ
charged_of b p c k r =
    (if b.cache_excl then p else p - k) + k + (if b.reasoning_add then c else c - r) + r

extra_cache :
    (p c k r : ℕ) (b : Basis)
    → k ≢ r
    → r ≤ c
    → k ≢ 0
    → charged_of (by_extra k k r b) p c k r ≡ p + c + k
unfolding by_extra
extra_cache p c k r b differ ok pos = ground arith

extra_reasoning :
    (p c k r : ℕ) (b : Basis)
    → k ≢ r
    → k ≤ p
    → r ≢ 0
    → charged_of (by_extra r k r b) p c k r ≡ p + c + r
unfolding by_extra
extra_reasoning p c k r b differ ok pos = ground arith

extra_both :
    (p c k r : ℕ) (b : Basis)
    → k + r < 2 ^ 64
    → k ≢ 0
    → r ≢ 0
    → charged_of (by_extra (k + r) k r b) p c k r ≡ p + c + k + r
unfolding by_extra
extra_both p c k r b fits k_pos r_pos = ground arith

extra_none :
    (p c k r : ℕ) (b : Basis) → k ≤ p → r ≤ c → charged_of (by_extra 0 k r b) p c k r ≡ p + c
unfolding by_extra
extra_none p c k r b k_ok r_ok = omega arith

by_total_of :
    (p c k r extra total : ℕ)
    → p + c < 2 ^ 64
    → total ≡ p + c + extra
    → by_total (some total) p c k r ≡ by_extra extra k r (by_size p k)
unfolding by_total
by_total_of p c k r extra total fits e =
    let same : total - (p + c) % 2 ^ 64 ≡ extra = omega arith in
    let enough : leb ((p + c) % 2 ^ 64) total ≡ true = ground arith in rw (enough, same) refl

-- The total is charged.
abbrev IsCounted : ℕ → ℕ → ℕ → ℕ → ℕ → Type 0
IsCounted p c k r total = charged_of (by_total (some total) p c k r) p c k r ≡ total

charged_within :
    (p c k r total : ℕ) → p + c < 2 ^ 64 → k ≤ p → r ≤ c → total ≡ p + c → IsCounted p c k r total
charged_within p c k r total fits k_ok r_ok e =
    rw (by_total_of p c k r 0 total fits (omega arith))
      (extra_none p c k r (by_size p k) k_ok r_ok ∙ sym e)

charged_beside_cache :
    (p c k r total : ℕ)
    → p + c < 2 ^ 64
    → k ≢ r
    → r ≤ c
    → total ≡ p + c + k
    → IsCounted p c k r total
charged_beside_cache p c zero r total fits differ r_ok e =
    charged_within p c 0 r total fits (omega arith) r_ok (omega arith)
charged_beside_cache p c (suc k) r total fits differ r_ok e =
    rw (by_total_of p c (suc k) r (suc k) total fits e)
      (extra_cache p c (suc k) r (by_size p (suc k)) differ r_ok (omega arith) ∙ sym e)

charged_beside_reasoning :
    (p c k r total : ℕ)
    → p + c < 2 ^ 64
    → k ≢ r
    → k ≤ p
    → total ≡ p + c + r
    → IsCounted p c k r total
charged_beside_reasoning p c k zero total fits differ k_ok e =
    charged_within p c k 0 total fits k_ok (omega arith) (omega arith)
charged_beside_reasoning p c k (suc r) total fits differ k_ok e =
    rw (by_total_of p c k (suc r) (suc r) total fits e)
      (extra_reasoning p c k (suc r) (by_size p k) differ k_ok (omega arith) ∙ sym e)

charged_beside_both :
    (p c k r total : ℕ) → p + c + k + r < 2 ^ 64 → total ≡ p + c + k + r → IsCounted p c k r total
charged_beside_both p c zero zero total fits e =
    charged_within p c 0 0 total (omega arith) (omega arith) (omega arith) (omega arith)
charged_beside_both p c zero (suc r) total fits e =
    charged_beside_reasoning p c 0 (suc r) total (omega arith) (omega arith) (omega arith)
      (omega arith)
charged_beside_both p c (suc k) zero total fits e =
    charged_beside_cache p c (suc k) 0 total (omega arith) (omega arith) (omega arith) (omega arith)
charged_beside_both p c (suc k) (suc r) total fits e =
    rw (by_total_of p c (suc k) (suc r) (suc k + suc r) total (omega arith) (omega arith)) (
      extra_both p c (suc k) (suc r) (by_size p (suc k)) (omega arith) (omega arith) (omega arith)
      ∙ sym e)

all_charged-charge :
    (t : Tokens) (b : Basis)
    → cache t < 2 ^ 64
    → all_charged (charge t b) ≡ charged_of b (prompt t) (completion t) (cache t) (reasoning t)
unfolding charge
all_charged-charge t b fits =
    let small : add_u64 (unwrap_or t.cache_read 0) (unwrap_or t.cache_write 0) ≡ cache t =
      omega arith in
    rw small (omega arith)

detect_basis-by_total :
    (t : Tokens) (reported : Option ℕ)
    → cache t < 2 ^ 64
    → detect_basis t reported ≡ by_total reported (prompt t) (completion t) (cache t) (reasoning t)
unfolding detect_basis
detect_basis-by_total t reported fits =
    let small : add_u64 (unwrap_or t.cache_read 0) (unwrap_or t.cache_write 0) ≡ cache t =
      omega arith in
    rw small refl

charged_total :
    (t : Tokens) (total : ℕ)
    → FitsU64 t
    → IsReading t total
    → IsCounted (prompt t) (completion t) (cache t) (reasoning t) total
charged_total t total fits (within k_ok r_ok e) =
    charged_within (prompt t) (completion t) (cache t) (reasoning t) total (omega arith) k_ok r_ok e
charged_total t total fits (beside_cache differ r_ok e) =
    charged_beside_cache (prompt t) (completion t) (cache t) (reasoning t) total (omega arith)
      differ r_ok e
charged_total t total fits (beside_reasoning differ k_ok e) =
    charged_beside_reasoning (prompt t) (completion t) (cache t) (reasoning t) total (omega arith)
      differ k_ok e
charged_total t total fits (beside_both e) =
    charged_beside_both (prompt t) (completion t) (cache t) (reasoning t) total fits e

-- When the reported total is one of the four sums, with a cache count and a reasoning count that
-- differ where only one of them is added, the charged tokens are exactly that total: none is
-- missed and none is charged twice. The counts together fit in 64 bits.
pub charge-detect_basis :
    (t : Tokens) (total : ℕ)
    → FitsU64 t
    → IsReading t total
    → all_charged (charge t (detect_basis t (some total))) ≡ total
charge-detect_basis t total fits reading =
    all_charged-charge t (detect_basis t (some total)) (omega arith)
    ∙ rw (detect_basis-by_total t (some total) (omega arith)) (charged_total t total fits reading)

-- Without a reported total the input tokens that are charged, cached or not, are the input that
-- picks the tier, and the output tokens are the completion unless it is below its reasoning.
pub charge-none :
    (t : Tokens)
    → FitsU64 t
    → let ch = charge t (detect_basis t none) in
      (ch.uncached + ch.cr + ch.cw ≡ ch.total_in)
      × (reasoning t ≤ completion t → ch.text_out + ch.reasoning_out ≡ completion t)
unfolding charge detect_basis by_total by_size
charge-none t fits = ground arith
