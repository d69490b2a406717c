-- ===== src/Routing/Sanitize.antt =====
-- internal/routing/sanitize.go: the text of a quarantined item, and its metadata, made inert for a
-- reviewer. `decode_rune` is utf8.DecodeRune: the first rune of a text that is not empty, and its size.
pub mod Inert
use glovebox.Prelude.{
  ℕ, zero, suc, ◌+◌, ◌/◌, ◌%◌, Bool, true, false, not, ◌&&◌, ◌||◌, ltb, leb, ◌==◌, List, [], ◌∷◌,
  ◌++◌, Bytes, codes, drop, if◌then◌else◌,
}

abbrev pub max_sanitized_chars : ℕ
max_sanitized_chars = 4096

abbrev pub sanitize_header : Bytes
sanitize_header = codes "--- UNTRUSTED QUARANTINED CONTENT (first 4096 chars) ---" ++ (10 ∷ [])

abbrev pub sanitize_footer : Bytes
sanitize_footer = (10 ∷ codes "--- END UNTRUSTED CONTENT ---") ++ (10 ∷ [])

abbrev pub max_sanitized_field_chars : ℕ
max_sanitized_field_chars = 256

unfoldable pub hex_digit : ℕ → ℕ
hex_digit d = if ltb d 10 then 48 + d else 87 + d

-- The last `width` hexadecimal digits, which are all of them for the numbers that are printed at that
-- width.
unfoldable pub hex : ℕ → ℕ → Bytes
hex zero n = []
hex (suc width) n = hex width (n / 16) ++ (hex_digit (n % 16) ∷ [])

unfoldable pub escape_rune : ℕ → Bytes
escape_rune r = if ltb 0xffff r then codes "\\U" ++ hex 8 r else codes "\\u" ++ hex 4 r

-- utf8.RuneError
abbrev pub rune_error : ℕ
rune_error = 0xfffd

unfoldable pub content_rune : ℕ → Bytes
content_rune r =
    if ltb r 0x20 && not (r == 10) && not (r == 13) && not (r == 9)
    then codes "\\u" ++ hex 4 r
    else if ltb 0x7e r
    then escape_rune r
    else r ∷ []

unfoldable pub field_rune : ℕ → Bytes
field_rune r =
    if r == 10 || r == 13 || r == 9
    then codes " "
    else if ltb r 0x20
    then codes "\\u" ++ hex 4 r
    else if ltb 0x7e r
    then escape_rune r
    else r ∷ []

module _ (decode_rune : Bytes → ℕ × ℕ) where
  -- The loop of SanitizeContent, with as many rounds as characters may still come.
  unfoldable pub sanitize_chars : ℕ → Bytes → Bytes
  sanitize_chars zero content = []
  sanitize_chars (suc n) [] = []
  sanitize_chars (suc n) (c ∷ content) =
      let r = (decode_rune (c ∷ content)).0 in
      let size = (decode_rune (c ∷ content)).1 in
      let broken = r == rune_error && leb size 1 in
      let rest = sanitize_chars n (if broken then content else drop size (c ∷ content)) in
      (if broken then codes "\\x" ++ hex 2 c else content_rune r) ++ rest

  unfoldable pub sanitize_content : Bytes → Bytes
  sanitize_content content =
      sanitize_header ++ sanitize_chars max_sanitized_chars content ++ sanitize_footer

  -- The loop of SanitizeField; what is left of a longer value becomes an ellipsis.
  unfoldable pub sanitize_field_chars : ℕ → Bytes → Bytes
  sanitize_field_chars n [] = []
  sanitize_field_chars zero (c ∷ value) = codes "..."
  sanitize_field_chars (suc n) (c ∷ value) =
      let next = decode_rune (c ∷ value) in
      field_rune next.0 ++ sanitize_field_chars n (drop next.1 (c ∷ value))

  unfoldable pub sanitize_field : Bytes → Bytes
  sanitize_field value = sanitize_field_chars max_sanitized_field_chars value
