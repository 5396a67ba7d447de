-- ===== src/Key/Examples.antt =====
-- Identities at concrete ids: canonical hex, and ids that stay as text.
use evald.Prelude.{ℕ, ◌≡◌, ◌↔◌, refl, none, some, List, [], ◌∷◌, bytes, length, All}
use evald.Key.{decode_hex, other, key_of}
use evald.Key.Hex.{IsByte, hex, decode_hex_iff}
use evald.Key.Injective.{key_of-injective}

abbrev two_bytes : List ℕ
two_bytes = 10 ∷ 255 ∷ []

decode_hex-lower : decode_hex 2 (bytes "0aff") ≡ some two_bytes
unfolding decode_hex
decode_hex-lower = refl

decode_hex-upper : decode_hex 2 (bytes "0AFF") ≡ none
unfolding decode_hex
decode_hex-upper = refl

decode_hex-short : decode_hex 2 (bytes "0af") ≡ none
unfolding decode_hex
decode_hex-short = refl

key_of-text : key_of (bytes "t1") (bytes "s1") ≡ other (bytes "t1") (bytes "s1")
unfolding key_of decode_hex
key_of-text = refl

decode_hex_iff_example :
    (decode_hex 2 (bytes "0aff") ≡ some two_bytes)
    ↔ ((length two_bytes ≡ 2) × All IsByte two_bytes × (hex two_bytes ≡ bytes "0aff"))
decode_hex_iff_example = decode_hex_iff 2 (bytes "0aff") two_bytes

key_of-injective_example : (bytes "t1" ≡ bytes "t1") × (bytes "s1" ≡ bytes "s1")
key_of-injective_example = key_of-injective (bytes "t1") (bytes "s1") (bytes "t1") (bytes "s1") refl
