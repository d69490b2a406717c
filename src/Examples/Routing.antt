-- ===== src/Examples/Routing.antt =====
-- A text with a letter outside ASCII, a line break and a broken byte, for internal/routing/sanitize.go.
use glovebox.Prelude.{
  ℕ, ◌+◌, ◌-◌, ◌≤◌, ◌≡◌, refl, ◌&&◌, ltb, leb, ◌==◌, [], ◌∷◌, ◌++◌, Bytes, codes, All, length,
  if◌then◌else◌,
}
use glovebox.Routing.Sanitize.{
  hex_digit, hex, escape_rune, content_rune, field_rune, sanitize_chars, sanitize_content,
  sanitize_field_chars, sanitize_field, sanitize_header, sanitize_footer,
}
use glovebox.Routing.Sanitize.Inert.{
  Printable, Inert, sanitize_field-Printable, sanitize_content-Inert,
}

-- ASCII, and the Greek letters that 0xce starts.
decode : Bytes → ℕ × ℕ
decode [] = (0xfffd, 0)
decode (c ∷ []) = if ltb c 0x80 then (c, 1) else (0xfffd, 1)
decode (c ∷ d ∷ rest) =
    if ltb c 0x80
    then (c, 1)
    else if c == 0xce && leb 0x80 d && ltb d 0xc0
    then (0x380 + d - 0x80, 2)
    else (0xfffd, 1)

abbrev text : Bytes
text = 0x61 ∷ 0xce ∷ 0xb1 ∷ 10 ∷ 0xff ∷ []

field_of_text : sanitize_field decode text ≡ codes "a\\u03b1 \\ufffd"
unfolding sanitize_field sanitize_field_chars field_rune escape_rune hex hex_digit decode
field_of_text = refl

content_of_text :
    sanitize_content decode text
    ≡ sanitize_header ++ (codes "a\\u03b1" ++ (10 ∷ codes "\\xff") ++ sanitize_footer)
unfolding sanitize_content sanitize_chars content_rune escape_rune hex hex_digit decode
content_of_text = refl

sanitize_field-Printable_example :
    All Printable (sanitize_field decode text) × (length (sanitize_field decode text) ≤ 2563)
sanitize_field-Printable_example = sanitize_field-Printable decode text

sanitize_content-Inert_example :
    All Inert (sanitize_content decode text) × (length (sanitize_content decode text) ≤ 41048)
sanitize_content-Inert_example = sanitize_content-Inert decode text
