-- ===== src/Engine/Unescape/Percent.antt =====
-- hexNibble and unescapePercent of internal/engine/unescape.go. A decoder returns none where the code
-- returns nil, false.
pub mod RoundTrip
use glovebox.Prelude.{
  ℕ, zero, suc, ◌+◌, ◌-◌, ◌*◌, Bool, true, false, ◌&&◌, List, [], ◌∷◌, leb, ◌==◌, any, Bytes,
  Option, none, some, if◌then◌else◌,
}
use glovebox.Prelude.Utf8.{is_utf8}

unfoldable pub hex_nibble : ℕ → Option ℕ
hex_nibble b =
    if leb b'0' b && leb b b'9'
    then some (b - b'0')
    else if leb b'a' b && leb b b'f'
    then some (b - b'a' + 10)
    else if leb b'A' b && leb b b'F'
    then some (b - b'A' + 10)
    else none

-- The byte that two hex digits name.
unfoldable pub two_nibbles : ℕ → ℕ → Option ℕ
two_nibbles h l = elim (hex_nibble h) [
  | none ↦ none
  | some hi ↦ elim (hex_nibble l) [ none ↦ none | some lo ↦ some (hi * 16 + lo) ]
]

-- The escape whose first byte is `c`, the rest following.
unfoldable pub percent_escape : ℕ → Bytes → Option ℕ
percent_escape c [] = none
percent_escape c (h ∷ []) = none
percent_escape c (h ∷ l ∷ rest) = let value = two_nibbles h l in if c == b'%' then value else none

-- The loop over the content: the bytes written, and whether an escape was met. `skip` counts the
-- bytes of the last escape that are still to be passed over.
unfoldable pub decode_percent : ℕ → Bytes → Bytes × Bool
decode_percent skip [] = ([], false)
decode_percent (suc skip) (c ∷ rest) = decode_percent skip rest
decode_percent zero (c ∷ rest) = elim (percent_escape c rest) [
  | none ↦ let (out, changed) = decode_percent zero rest in (c ∷ out, changed)
  | some b ↦ let (out, changed) = decode_percent 2 rest in (b ∷ out, true)
]

unfoldable pub unescape_percent : Bytes → Option Bytes
unescape_percent content =
    let (out, changed) = decode_percent 0 content in
    if any (λ b. b == b'%') content
    then (if changed && is_utf8 out then some out else none)
    else none
