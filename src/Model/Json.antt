-- ===== src/Model/Json.antt =====
-- `serde_json::Value` as src/model.rs reads it. A number keeps the text it was written in.
use evald.Prelude.{
  ℕ, zero, suc, Bool, true, false, ◌&&◌, ◌||◌, Option, none, some, Text, bytes, contains_str,
  to_ascii_lowercase,
}

mutual
  pub data Value : Type 0 where
    null : Value
    boolean : Bool → Value
    number : Text → Value
    string : Text → Value
    array : Items → Value
    object : Members → Value

  pub data Items : Type 0 where
    nil : Items
    cons : Value → Items → Items

  pub data Members : Type 0 where
    end : Members
    member : Text → Value → Members → Members

-- `Value::as_str`
abbrev pub as_str : Value → Option Text
as_str (string s) = some s
as_str _ = none

-- `v.is_number() || v.is_string()`
abbrev pub is_numeric_ish : Value → Bool
is_numeric_ish (number _) = true
is_numeric_ish (string _) = true
is_numeric_ish _ = false

-- `k.to_ascii_lowercase().contains("token")`
abbrev pub names_token : Text → Bool
names_token k = contains_str (to_ascii_lowercase k) (bytes "token")

-- The closure of each `any` in `walk`, over the walk one level down.
abbrev pub any_member : (Value → Bool) → Members → Bool
any_member walk end = false
any_member walk (member k v rest) =
    names_token k && is_numeric_ish v || walk v || any_member walk rest

abbrev pub any_item : (Value → Bool) → Items → Bool
any_item walk nil = false
any_item walk (cons v rest) = walk v || any_item walk rest

-- `walk`: `depth` runs out at 0.
unfoldable pub walk : ℕ → Value → Bool
walk zero v = false
walk (suc depth) (object map) = any_member (walk depth) map
walk (suc depth) (array arr) = any_item (walk depth) arr
walk (suc depth) _ = false

unfoldable pub json_mentions_tokens : Value → Bool
unfolding walk
json_mentions_tokens v = walk 4 v
