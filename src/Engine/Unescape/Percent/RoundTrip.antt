-- ===== src/Engine/Unescape/Percent/RoundTrip.antt =====
-- Percent-decoding of internal/engine/unescape.go against a sender who chooses which bytes to escape.
use glovebox.Prelude.{
  ℕ, ◌+◌, ◌*◌, ◌<◌, ◌≡◌, ◌≢◌, refl, ap, ◌∙◌, Bool, true, false, List, [], ◌∷◌, any, arith, Bytes,
  none, some, ◌==◌,
}
use glovebox.Prelude.Utf8.{is_utf8}
use glovebox.Engine.Unescape.Digits.{Digit, digit_char, hex_nibble-digit_char}
use glovebox.Engine.Unescape.Percent.{
  hex_nibble, two_nibbles, percent_escape, decode_percent, unescape_percent,
}

-- A byte sent as it is, or as "%" and two hex digits, the high one first.
pub data Piece : Type 0 where
  plain : ℕ → Piece
  escaped : (high low : Digit) → Piece

abbrev pub spelled : List Piece → Bytes
spelled [] = []
spelled (plain b ∷ ps) = b ∷ spelled ps
spelled (escaped h l ∷ ps) = b'%' ∷ digit_char h ∷ digit_char l ∷ spelled ps

abbrev pub meant : List Piece → Bytes
meant [] = []
meant (plain b ∷ ps) = b ∷ meant ps
meant (escaped h l ∷ ps) = (16 * h.value + l.value) ∷ meant ps

-- A "%" is always escaped, and the digits of an escape are below sixteen.
abbrev pub WellSpelled : List Piece → Type 0
WellSpelled [] = Unit
WellSpelled (plain b ∷ ps) = (b ≢ b'%') × WellSpelled ps
WellSpelled (escaped h l ∷ ps) = ((h.value < 16) × (l.value < 16)) × WellSpelled ps

abbrev pub has_escape : List Piece → Bool
has_escape [] = false
has_escape (plain b ∷ ps) = has_escape ps
has_escape (escaped h l ∷ ps) = true

plain-percent_escape : (b : ℕ) (rest : Bytes) → b ≢ b'%' → percent_escape b rest ≡ none
unfolding percent_escape
plain-percent_escape b [] h = refl
plain-percent_escape b (x ∷ []) h = refl
plain-percent_escape b (x ∷ y ∷ rest) h = ground arith

two_digits :
    (a b x y : ℕ) (rest : Bytes)
    → hex_nibble a ≡ some x
    → hex_nibble b ≡ some y
    → percent_escape b'%' (a ∷ b ∷ rest) ≡ some (x * 16 + y)
unfolding percent_escape two_nibbles
two_digits a b x y rest p q = rw (percent_escape, two_nibbles, p, q) refl

escape_value :
    (h l : Digit) (rest : Bytes)
    → h.value < 16
    → l.value < 16
    → percent_escape b'%' (digit_char h ∷ digit_char l ∷ rest) ≡ some (16 * h.value + l.value)
escape_value h l rest p q =
    two_digits (digit_char h) (digit_char l) h.value l.value rest (hex_nibble-digit_char h p)
      (hex_nibble-digit_char l q)
    ∙ ap some (omega arith)

decode-spelled :
    (ps : List Piece) → WellSpelled ps → decode_percent 0 (spelled ps) ≡ (meant ps, has_escape ps)
unfolding decode_percent
decode-spelled [] w = refl
decode-spelled (plain b ∷ ps) w =
    rw (decode_percent, plain-percent_escape b (spelled ps) w.0, decode-spelled ps w.1) refl
decode-spelled (escaped h l ∷ ps) w =
    let e = escape_value h l (spelled ps) w.0.0 w.0.1 in
    rw (decode_percent, e, decode-spelled ps w.1) refl

spelled-has_percent :
    (ps : List Piece) → has_escape ps ≡ true → any (λ b. b == b'%') (spelled ps) ≡ true
spelled-has_percent [] h = h
spelled-has_percent (plain b ∷ ps) h = ground (arith, spelled-has_percent ps h)
spelled-has_percent (escaped x y ∷ ps) h = refl

-- However a sender spells a text, each byte plain or as a percent escape of two hex digits in lower or
-- upper case, with a "%" always escaped and at least one escape: when the text is valid UTF-8, decoding in place gives exactly that text.
pub unescape_percent-spelled :
    (ps : List Piece)
    → WellSpelled ps
    → has_escape ps ≡ true
    → is_utf8 (meant ps) ≡ true
    → unescape_percent (spelled ps) ≡ some (meant ps)
unfolding unescape_percent
unescape_percent-spelled ps w e u = rw (decode-spelled ps w, spelled-has_percent ps e, e, u) refl
