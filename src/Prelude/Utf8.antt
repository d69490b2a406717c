-- ===== src/Prelude/Utf8.antt =====
-- unicode/utf8: well-formed UTF-8 and the code points that it stands for, and the encoder.
pub mod Encoded
use Prim.Native.Nat.{ℕ, zero, suc, ◌+◌, ◌-◌, ◌*◌, ◌/◌, ◌%◌}
use mathlib.Core.Bool.{Bool, true, false, ◌&&◌}
use mathlib.Core.Option.{Option, none, some}
use mathlib.Core.List.{List, [], ◌∷◌}
use glovebox.Prelude.Tests.{ltb, leb, ◌==◌, if◌then◌else◌}
use glovebox.Prelude.Text.{Bytes}

-- What a first byte announces: a rune of its own, or `more` bytes of which the first lies in
-- [low, high], with the leading bits of the rune.
pub data Lead : Type 0 where
  ascii invalid : Lead
  multi : (more low high bits : ℕ) → Lead

unfoldable lead : ℕ → Lead
lead b =
    if ltb b 0x80
    then ascii
    else if ltb b 0xc2
    then invalid
    else if ltb b 0xe0
    then multi 1 0x80 0xbf (b - 0xc0)
    else if b == 0xe0
    then multi 2 0xa0 0xbf 0
    else if b == 0xed
    then multi 2 0x80 0x9f 13
    else if ltb b 0xf0
    then multi 2 0x80 0xbf (b - 0xe0)
    else if b == 0xf0
    then multi 3 0x90 0xbf 0
    else if ltb b 0xf4
    then multi 3 0x80 0xbf (b - 0xf0)
    else if b == 0xf4
    then multi 3 0x80 0x8f 4
    else invalid

abbrev cons? : ℕ → Option (List ℕ) → Option (List ℕ)
cons? r none = none
cons? r (some rs) = some (r ∷ rs)

-- The runes of the bytes, when they are valid UTF-8. `more` bytes of the current rune are awaited.
unfoldable walk : (more low high bits : ℕ) → Bytes → Option (List ℕ)
unfolding lead
walk zero low high bits [] = some []
walk (suc more) low high bits [] = none
walk zero low high bits (b ∷ rest) = elim (lead b) [
  | ascii ↦ cons? b (walk zero 0 0 0 rest)
  | invalid ↦ none
  | multi m l h v ↦ walk m l h v rest
]
walk (suc zero) low high bits (b ∷ rest) =
    let more = walk zero 0 0 0 rest in
    if leb low b && leb b high then cons? (bits * 64 + (b - 0x80)) more else none
walk (suc (suc more)) low high bits (b ∷ rest) =
    let next = walk (suc more) 0x80 0xbf (bits * 64 + (b - 0x80)) rest in
    if leb low b && leb b high then next else none

-- []rune(s), for valid s
unfoldable pub runes? : Bytes → Option (List ℕ)
unfolding walk
runes? s = walk 0 0 0 0 s

-- utf8.ValidString(s)
unfoldable pub is_utf8 : Bytes → Bool
unfolding runes?
is_utf8 s = elim (runes? s) [ none ↦ false | some rs ↦ true ]

-- utf8.AppendRune: surrogates and values past the last code point are written as U+FFFD
unfoldable pub encode_rune : ℕ → Bytes
encode_rune r =
    if ltb r 0x80
    then r ∷ []
    else if ltb r 0x800
    then (0xc0 + r / 64) ∷ (0x80 + r % 64) ∷ []
    else if (leb 0xd800 r && ltb r 0xe000)
    then 0xef ∷ 0xbf ∷ 0xbd ∷ []
    else if ltb r 0x10000
    then (0xe0 + r / 4096) ∷ (0x80 + r / 64 % 64) ∷ (0x80 + r % 64) ∷ []
    else if ltb r 0x110000
    then (0xf0 + r / 262144) ∷ (0x80 + r / 4096 % 64) ∷ (0x80 + r / 64 % 64) ∷ (0x80 + r % 64) ∷ []
    else 0xef ∷ 0xbf ∷ 0xbd ∷ []
