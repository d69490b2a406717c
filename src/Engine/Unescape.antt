-- ===== src/Engine/Unescape.antt =====
-- UnescapeInPlace of internal/engine/unescape.go: the four decoders in their order, each once.
pub mod Digits
pub mod Percent
pub mod FormPlus
pub mod Backslash
pub mod Pipeline
use glovebox.Prelude.{
  ℕ, Bool, true, false, List, [], ◌∷◌, ◌==◌, any, ◌||◌, Bytes, codes, eq_bytes, Option, none, some,
  if◌then◌else◌,
}
use Percent.{unescape_percent}
use FormPlus.{unescape_form_plus}
use Backslash.{unescape_backslash}

-- `if d, ok := decode(out); ok { out, changed = d, true }`
unfoldable pub apply_decoder : (Bytes → Option Bytes) → Bytes × Bool → Bytes × Bool
apply_decoder decode (out, changed) = elim (decode out) [
  | none ↦ (out, changed)
  | some d ↦ (d, true)
]

-- The HTML step, over html.UnescapeString.
unfoldable pub unescape_html : (Bytes → Bytes) → Bytes → Option Bytes
unescape_html html content =
    let s = html content in
    if any (λ b. b == b'&') content then (if eq_bytes s content then none else some s) else none

unfoldable pub unescape_in_place : (Bytes → Bytes) → Bytes → Option Bytes
unescape_in_place html content =
    let (out, changed) = apply_decoder (unescape_html html) (
      apply_decoder unescape_backslash
        (apply_decoder unescape_percent (apply_decoder unescape_form_plus (content, false)))) in
    if changed then some out else none
