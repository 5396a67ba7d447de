-- ===== src/Cost.antt =====
-- Pricing stored spans again, src/cost.rs: the dimensions of the report, the price of a row of the
-- query, and the sums. The rows are the input; `Cost.Query` has how the query selects them.
pub mod Examples
pub mod Query
pub mod Repriced
use evald.Prelude.{
  ℕ, ◌+◌, ◌*◌, ◌%◌, ◌^◌, Bool, true, false, not, ◌&&◌, Option, none, some, List, [], ◌∷◌, Text,
  bytes, text_beq, text_eq, nat_beq, to_ascii_lowercase, if◌then◌else◌,
}
use evald.Prelude.Options.{◌>>=◌, unwrap_or}
use evald.Prelude.Maps.{Map, get, put, text_less}
use evald.Model.{F64, Tokens, is_none}
use evald.Merge.Inputs.{add_u64}
use evald.Price.{PriceTable, lookup}
use evald.Price.Basis.{Basis, Float, detect_basis, price_tokens}

pub data Dimension : Type 0 where
  by_model by_user by_session by_service by_provider : Dimension

-- `Dimension::parse`, where an unknown name is an error.
unfoldable pub parse_dimension : Text → Option Dimension
parse_dimension s =
    let by = to_ascii_lowercase s in
    if text_beq by (bytes "model")
    then some by_model
    else if text_beq by (bytes "user")
    then some by_user
    else if text_beq by (bytes "session")
    then some by_session
    else if text_beq by (bytes "service")
    then some by_service
    else if text_beq by (bytes "provider")
    then some by_provider
    else none

unfoldable pub column : Dimension → Text
column by_model = bytes "model"
column by_user = bytes "user_id"
column by_session = bytes "session_id"
column by_service = bytes "service_name"
column by_provider = bytes "provider"

unfoldable pub label : Dimension → Text
label by_model = bytes "model"
label by_user = bytes "user"
label by_session = bytes "session"
label by_service = bytes "service"
label by_provider = bytes "provider"

-- A row of the query, as `reprice` reads it.
pub record Row : Type 0 where
  pub attribution : Option Text
  pub model : Option Text
  pub tokens : Tokens
  pub stored : Option F64
  pub derived : Bool
  pub cache_excl : Bool
  pub reasoning_add : Bool
  pub n : ℕ

unfoldable pub synthesized : Tokens → Option ℕ
synthesized t = do p ← t.prompt; c ← t.completion; some (add_u64 p c)

unfoldable pub is_synthesized : ℕ → Option ℕ → Bool
is_synthesized total none = false
is_synthesized total (some sum) = nat_beq total sum

-- A stored total that prompt and completion give is not evidence.
unfoldable pub stored_total : Tokens → Option ℕ
unfolding synthesized is_synthesized
stored_total t = do
  total ← t.total
  if is_synthesized total (synthesized t) then none else some total

unfoldable pub row_basis : Row → Basis
unfolding stored_total
row_basis row =
    if row.derived
    then record { cache_excl = row.cache_excl; reasoning_add = row.reasoning_add }
    else detect_basis row.tokens (stored_total row.tokens)

unfoldable pub price_again : Float → PriceTable → Row → Option F64
unfolding row_basis
price_again f table row = do
  model ← row.model
  (key, price) ←
      if is_none row.tokens.prompt && is_none row.tokens.completion
      then none
      else lookup table model
  some (price_tokens f price row.tokens (row_basis row))

unfoldable pub per_span : Float → PriceTable → Row → Option F64
unfolding price_again
per_span f table row =
    if not (is_none row.stored) && not row.derived then row.stored else price_again f table row

-- An `i64` is carried as its 64-bit pattern, whose sums and products are those of the pattern.
pub record Acc : Type 0 where
  pub spans : ℕ
  pub tokens : ℕ
  pub cost : Option F64
  pub missing : ℕ

abbrev pub no_acc : Acc
no_acc = record { spans = 0; tokens = 0; cost = none; missing = 0 }

unfoldable pub add_cost : Float → Option F64 → ℕ → Acc → Acc
add_cost f (some c) n a = record a {
  cost = some (f.add (unwrap_or a.cost f.nought) (f.mul c (f.of_count n)));
}
add_cost f none n a = record a { missing = add_u64 a.missing n }

unfoldable pub add_row : Float → PriceTable → Row → Acc → Acc
unfolding add_cost per_span
add_row f table row a = add_cost f (per_span f table row) row.n (record a {
  spans = add_u64 a.spans row.n;
  tokens = add_u64 a.tokens (unwrap_or row.tokens.total 0 * row.n % 2 ^ 64);
})

abbrev pub group_key : Row → Text
group_key row = unwrap_or row.attribution (bytes "(untagged)")

unfoldable pub sum_rows : Float → PriceTable → List Row → Map Text Acc → Acc → Map Text Acc × Acc
unfolding add_row
sum_rows f table [] groups all = (groups, all)
sum_rows f table (row ∷ rows) groups all =
    let key = group_key row in
    let grown = add_row f table row (unwrap_or (get key groups) no_acc) in
    sum_rows f table rows (put key grown groups) (add_row f table row all)
