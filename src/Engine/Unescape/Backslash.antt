-- ===== src/Engine/Unescape/Backslash.antt =====
-- unescapeBackslash, hexEscapeWidth and hexValue of internal/engine/unescape.go.
pub mod Numeric
use glovebox.Prelude.{
  ℕ, zero, suc, ◌+◌, ◌*◌, Bool, true, false, ◌||◌, List, [], ◌∷◌, ◌++◌, ltb, ◌==◌, any, Bytes,
  Option, none, some, if◌then◌else◌,
}
use glovebox.Prelude.Utf8.{encode_rune}
use glovebox.Engine.Unescape.Percent.{hex_nibble}

unfoldable pub hex_escape_width : ℕ → ℕ
hex_escape_width marker = if marker == b'x' then 2 else if marker == b'u' then 4 else 8

-- The loop of hexValue: `width` more digits on top of `v`.
unfoldable pub hex_digits : ℕ → ℕ → Bytes → Option ℕ
hex_digits v zero s = some v
hex_digits v (suc width) [] = none
hex_digits v (suc width) (b ∷ s) = elim (hex_nibble b) [
  | none ↦ none
  | some n ↦ hex_digits (v * 16 + n) width s
]

unfoldable pub hex_value : Bytes → ℕ → Option ℕ
hex_value s width = elim (hex_digits 0 width s) [
  | none ↦ none
  | some v ↦ if ltb 0x10ffff v then none else some v
]

-- The escape whose first byte is `c`: its width and its value.
unfoldable pub numeric_escape : ℕ → Bytes → Option (ℕ × ℕ)
numeric_escape c [] = none
numeric_escape c (m ∷ rest) =
    let escape : Option (ℕ × ℕ) = elim (hex_value rest (hex_escape_width m)) [
      | none ↦ none
      | some v ↦ some (hex_escape_width m, v)
    ] in
    if c == b'\\' then (if m == b'x' || m == b'u' || m == b'U' then escape else none) else none

-- The loop over the text; `skip` counts the bytes of the last escape still to be passed over.
unfoldable pub decode_backslash : ℕ → Bytes → Bytes × Bool
decode_backslash skip [] = ([], false)
decode_backslash (suc skip) (c ∷ rest) = decode_backslash skip rest
decode_backslash zero (c ∷ rest) = elim (numeric_escape c rest) [
  | none ↦ let (out, changed) = decode_backslash zero rest in (c ∷ out, changed)
  | some (width, v) ↦
      let (out, changed) = decode_backslash (suc width) rest in (encode_rune v ++ out, true)
]

unfoldable pub unescape_backslash : Bytes → Option Bytes
unescape_backslash content =
    let (out, changed) = decode_backslash 0 content in
    if any (λ b. b == b'\\') content then (if changed then some out else none) else none
