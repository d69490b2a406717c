-- ===== src/Prelude/Utf8/Encoded.antt =====
-- What utf8.AppendRune writes is valid UTF-8 for the code point.
use Prim.Native.Nat.{ℕ, ◌≤◌, ◌<◌}
use mathlib.Core.Path.{◌≡◌}
use mathlib.Core.Logic.{◌⊎◌}
use mathlib.Core.Option.{some}
use mathlib.Core.List.{[], ◌∷◌}
use native.Mathlib.Omega.{arith}
use glovebox.Prelude.Utf8.{lead, walk, runes?, encode_rune}

-- A code point that is no surrogate.
abbrev pub IsScalar : ℕ → Type 0
IsScalar r = (r < 0xd800) ⊎ ((0xe000 ≤ r) × (r ≤ 0x10ffff))

pub runes-encode_rune : (r : ℕ) → IsScalar r → runes? (encode_rune r) ≡ some (r ∷ [])
unfolding runes? encode_rune lead walk
runes-encode_rune r h = ground (arith, h)
