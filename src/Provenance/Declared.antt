-- ===== src/Provenance/Declared.antt =====
-- A footer that was written from a provenance, read back.
use evald.Prelude.{ℕ, ◌^◌, ◌<◌, ◌≡◌, refl, true, some, List, [], ◌∷◌, Text}
use evald.Prelude.Decimal.{parse_u64-decimal}
use evald.Provenance.{
  BlockKind, flush, merged, Provenance, Strings, key_value_metadata, from_key_values,
}

-- What only a merged block records is empty for a flush.
abbrev pub IsPlain : BlockKind → List Text → Type 0
IsPlain flush merged_from = merged_from ≡ []
IsPlain merged merged_from = Unit

module _ (json : Strings) (version : Text) where
  -- The footer of a block says what was recorded of it, whatever its file is called: the kind, the
  -- range of segments, the blocks it replaced and the price tables. The range is of 64-bit numbers, and a flush
  -- replaced no block.
  pub from_key_values-key_value_metadata :
      (kind : BlockKind) (seqno_lo seqno_hi : ℕ) (merged_from price_tables : List Text)
      (stem : Text)
      → seqno_lo < 2 ^ 64
      → seqno_hi < 2 ^ 64
      → IsPlain kind merged_from
      → let p : Provenance = record {
        kind = kind;
        seqno_lo = seqno_lo;
        seqno_hi = seqno_hi;
        merged_from = merged_from;
        price_tables = price_tables;
        declared = true;
      } in
        from_key_values json version (some (key_value_metadata json version p)) stem ≡ p
  unfolding from_key_values key_value_metadata
  from_key_values-key_value_metadata flush lo hi merged_from [] stem l h plain =
      rw (parse_u64-decimal lo l, parse_u64-decimal hi h, plain) refl
  from_key_values-key_value_metadata flush lo hi merged_from (v ∷ versions) stem l h plain =
      rw
        (
          parse_u64-decimal lo l,
          parse_u64-decimal hi h,
          plain,
          json.from_str-to_string (v ∷ versions),
        )
        refl
  from_key_values-key_value_metadata merged lo hi merged_from [] stem l h plain =
      rw (parse_u64-decimal lo l, parse_u64-decimal hi h, json.from_str-to_string merged_from) refl
  from_key_values-key_value_metadata merged lo hi merged_from (v ∷ versions) stem l h plain =
      rw
        (
          parse_u64-decimal lo l,
          parse_u64-decimal hi h,
          json.from_str-to_string merged_from,
          json.from_str-to_string (v ∷ versions),
        )
        refl
