-- ===== src/Engine/Unescape/Digits.antt =====
-- Hex digits as a sender writes them, for the decoders of internal/engine/unescape.go.
use glovebox.Prelude.{ℕ, ◌+◌, ◌-◌, ◌<◌, ◌≡◌, Bool, ltb, arith, some, if◌then◌else◌}
use glovebox.Engine.Unescape.Percent.{hex_nibble}

-- A digit below sixteen, and whether a letter is upper case.
pub record Digit : Type 0 where
  pub value : ℕ
  pub is_upper : Bool

abbrev pub digit_char : Digit → ℕ
digit_char d =
    if ltb d.value 10 then b'0' + d.value else (if d.is_upper then b'A' else b'a') + (d.value - 10)

pub hex_nibble-digit_char : (d : Digit) → d.value < 16 → hex_nibble (digit_char d) ≡ some d.value
unfolding hex_nibble
hex_nibble-digit_char d h = ground (arith, h)
