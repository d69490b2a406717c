-- ===== src/Engine/Unescape/Backslash/Numeric.antt =====
-- What unescapeBackslash of internal/engine/unescape.go decodes and what it leaves alone.
use glovebox.Prelude.{
  ℕ, suc, ◌⊎◌, ltb, Bool-cases, ap, map, All, ◌≤◌, ◌<◌, ◌+◌, ◌*◌, ◌≡◌, ◌≢◌, refl, sym, Bool, true,
  false, ◌&&◌, ◌||◌, List, [], ◌∷◌, ◌++◌, any, length, arith, ◌∙◌, Bytes, none, some, inl, inr,
  ◌==◌,
}
use glovebox.Prelude.Utf8.{encode_rune, runes?}
use glovebox.Prelude.Utf8.Encoded.{IsScalar, runes-encode_rune}
use glovebox.Engine.Unescape.Digits.{Digit, digit_char, hex_nibble-digit_char}
use glovebox.Engine.Unescape.Percent.{hex_nibble}
use glovebox.Engine.Unescape.Backslash.{
  hex_digits, hex_value, hex_escape_width, numeric_escape, decode_backslash, unescape_backslash,
}

-- No backslash stands before an "x", a "u" or a "U".
abbrev pub NoMarker : Bytes → Type 0
NoMarker [] = Unit
NoMarker (c ∷ []) = Unit
NoMarker (c ∷ m ∷ s) =
    (((c == b'\\') && (m == b'x' || m == b'u' || m == b'U')) ≡ false) × NoMarker (m ∷ s)

no_escape : (c : ℕ) (s : Bytes) → NoMarker (c ∷ s) → numeric_escape c s ≡ none
unfolding numeric_escape
no_escape c [] h = refl
no_escape c (m ∷ s) h = ground (arith, h.0)

tail-NoMarker : (c : ℕ) (s : Bytes) → NoMarker (c ∷ s) → NoMarker s
tail-NoMarker c [] h = tt
tail-NoMarker c (m ∷ s) h = h.1

decode-NoMarker : (s : Bytes) → NoMarker s → decode_backslash 0 s ≡ (s, false)
unfolding decode_backslash
decode-NoMarker [] h = refl
decode-NoMarker (c ∷ s) h =
    rw (decode_backslash, no_escape c s h, decode-NoMarker s (tail-NoMarker c s h)) refl

-- Text in which no backslash stands before "x", "u" or "U", such as a Windows path or the
-- single-letter escapes for tab and newline, is left alone.
unescape_backslash-NoMarker : (s : Bytes) → NoMarker s → unescape_backslash s ≡ none
unfolding unescape_backslash
unescape_backslash-NoMarker s h = rw (decode-NoMarker s h) (ground arith)

-- The escapes, by the number of their digits: two, four and eight.
pub data Marker : Type 0 where
  small_x small_u big_u : Marker

abbrev pub marker_char : Marker → ℕ
marker_char small_x = b'x'
marker_char small_u = b'u'
marker_char big_u = b'U'

abbrev pub marker_width : Marker → ℕ
marker_width small_x = 2
marker_width small_u = 4
marker_width big_u = 8

-- The number that digits write, on top of `v`.
abbrev pub number_from : ℕ → List Digit → ℕ
number_from v [] = v
number_from v (d ∷ ds) = number_from (16 * v + d.value) ds

abbrev pub number : List Digit → ℕ
number ds = number_from 0 ds

-- A byte as it is, or a backslash, a marker and digits for a code point.
pub data Part : Type 0 where
  literal : ℕ → Part
  numeric : Marker → List Digit → Part

abbrev pub written : List Part → Bytes
written [] = []
written (literal b ∷ ps) = b ∷ written ps
written (numeric m ds ∷ ps) = b'\\' ∷ marker_char m ∷ (map digit_char ds ++ written ps)

abbrev pub text_of : List Part → Bytes
text_of [] = []
text_of (literal b ∷ ps) = b ∷ text_of ps
text_of (numeric m ds ∷ ps) = encode_rune (number ds) ++ text_of ps

-- Plain bytes are no backslashes; an escape has its marker's number of hex digits, which write a
-- number that is no more than the last code point.
abbrev pub WellWritten : List Part → Type 0
WellWritten [] = Unit
WellWritten (literal b ∷ ps) = (b ≢ b'\\') × WellWritten ps
WellWritten (numeric m ds ∷ ps) =
    (All (λ (d : Digit). d.value < 16) ds × (length ds ≡ marker_width m) × (number ds ≤ 0x10ffff))
    × WellWritten ps

abbrev pub has_numeric : List Part → Bool
has_numeric [] = false
has_numeric (literal b ∷ ps) = has_numeric ps
has_numeric (numeric m ds ∷ ps) = true

hex_digits-step :
    (a x v w : ℕ) (s : Bytes)
    → hex_nibble a ≡ some x
    → hex_digits v (suc w) (a ∷ s) ≡ hex_digits (16 * v + x) w s
unfolding hex_digits
hex_digits-step a x v w s e = rw (hex_digits, e) (ap (λ n. hex_digits n w s) (omega arith))

-- The loop of hexValue reads the digits and stops after them.
hex_digits-number_from :
    (ds : List Digit) (rest : Bytes) (v : ℕ)
    → All (λ (d : Digit). d.value < 16) ds
    → hex_digits v (length ds) (map digit_char ds ++ rest) ≡ some (number_from v ds)
unfolding hex_digits
hex_digits-number_from [] rest v h = refl
hex_digits-number_from (d ∷ ds) rest v h =
    hex_digits-step (digit_char d) d.value v (length ds) (map digit_char ds ++ rest)
      (hex_nibble-digit_char d h.0)
    ∙ hex_digits-number_from ds rest (16 * v + d.value) h.1

hex_value-number :
    (ds : List Digit) (rest : Bytes) (w : ℕ)
    → All (λ (d : Digit). d.value < 16) ds
    → length ds ≡ w
    → number ds ≤ 0x10ffff
    → hex_value (map digit_char ds ++ rest) w ≡ some (number ds)
unfolding hex_value
hex_value-number ds rest w h e k =
    rw (sym e, hex_value, hex_digits-number_from ds rest 0 h) (ground (arith, k))

skip-append :
    (ds rest : Bytes) → decode_backslash (length ds) (ds ++ rest) ≡ decode_backslash 0 rest
unfolding decode_backslash
skip-append [] rest = refl
skip-append (d ∷ ds) rest = skip-append ds rest

plain-numeric_escape : (b : ℕ) (s : Bytes) → b ≢ b'\\' → numeric_escape b s ≡ none
unfolding numeric_escape
plain-numeric_escape b [] h = refl
plain-numeric_escape b (m ∷ s) h = ground arith

hex_escape_width_lem : (m : Marker) → hex_escape_width (marker_char m) ≡ marker_width m
unfolding hex_escape_width
hex_escape_width_lem small_x = refl
hex_escape_width_lem small_u = refl
hex_escape_width_lem big_u = refl

abbrev is_marker : ℕ → Bool
is_marker m = m == b'x' || m == b'u' || m == b'U'

marker_known : (m : Marker) → is_marker (marker_char m) ≡ true
marker_known small_x = refl
marker_known small_u = refl
marker_known big_u = refl

length-map : (ds : List Digit) → length (map digit_char ds) ≡ length ds
length-map [] = refl
length-map (d ∷ ds) = ap suc (length-map ds)

escape_read :
    (m v : ℕ) (s : Bytes)
    → is_marker m ≡ true
    → hex_value s (hex_escape_width m) ≡ some v
    → numeric_escape b'\\' (m ∷ s) ≡ some (hex_escape_width m, v)
unfolding numeric_escape
escape_read m v s k h = rw (numeric_escape, k, h) refl

escape_found :
    (m : Marker) (ds : List Digit) (rest : Bytes)
    → All (λ (d : Digit). d.value < 16) ds
    → length ds ≡ marker_width m
    → number ds ≤ 0x10ffff
    → numeric_escape b'\\' (marker_char m ∷ (map digit_char ds ++ rest))
      ≡ some (length (map digit_char ds), number ds)
escape_found m ds rest h e k =
    let w : hex_escape_width (marker_char m) ≡ length ds = hex_escape_width_lem m ∙ sym e in
    escape_read (marker_char m) (number ds) (map digit_char ds ++ rest) (marker_known m)
      (hex_value-number ds rest (hex_escape_width (marker_char m)) h (sym w) k)
    ∙ ap (λ n. some (n, number ds)) (w ∙ sym (length-map ds))

decode-written :
    (ps : List Part)
    → WellWritten ps
    → decode_backslash 0 (written ps) ≡ (text_of ps, has_numeric ps)
unfolding decode_backslash
decode-written [] w = refl
decode-written (literal b ∷ ps) w =
    rw (decode_backslash, plain-numeric_escape b (written ps) w.0, decode-written ps w.1) refl
decode-written (numeric m ds ∷ ps) w =
    let e = escape_found m ds (written ps) w.0.0 w.0.1 w.0.2 in
    rw (decode_backslash, e, skip-append (map digit_char ds) (written ps), decode-written ps w.1)
      refl

written-has_backslash :
    (ps : List Part) → has_numeric ps ≡ true → any (λ b. b == b'\\') (written ps) ≡ true
written-has_backslash [] h = h
written-has_backslash (literal b ∷ ps) h = ground (arith, written-has_backslash ps h)
written-has_backslash (numeric m ds ∷ ps) h = refl

-- How a code point is written: in UTF-8, and a surrogate as U+FFFD.
abbrev pub Encodes : ℕ → Bytes → Type 0
Encodes n bytes =
    (IsScalar n × (runes? bytes ≡ some (n ∷ [])))
    ⊎ ((0xd800 ≤ n) × (n < 0xe000) × (bytes ≡ 0xef ∷ 0xbf ∷ 0xbd ∷ []))

-- The bytes that the parts stand for.
abbrev pub IsText : List Part → Bytes → Type 0
IsText [] out = out ≡ []
IsText (literal b ∷ ps) out = (rest : Bytes) × (out ≡ b ∷ rest) × IsText ps rest
IsText (numeric m ds ∷ ps) out =
    (bytes : Bytes) × (rest : Bytes) × (out ≡ bytes ++ rest)
    × Encodes (number ds) bytes
    × IsText ps rest

encode_rune-Encodes : (n : ℕ) → n ≤ 0x10ffff → Encodes n (encode_rune n)
unfolding encode_rune
encode_rune-Encodes n h = elim (Bool-cases (ltb n 0xd800)) [
  | inl e ↦ let s = inl (ground (arith, e)) in inl (s, runes-encode_rune n s)
  | inr e ↦ elim (Bool-cases (ltb n 0xe000)) [
    | inl k ↦ inr (ground (arith, e), ground (arith, k), ground (arith, e, k))
    | inr k ↦ let s = inr (ground (arith, k), h) in inl (s, runes-encode_rune n s)
  ]
]

text_of-IsText : (ps : List Part) → WellWritten ps → IsText ps (text_of ps)
text_of-IsText [] w = refl
text_of-IsText (literal b ∷ ps) w = (text_of ps, refl, text_of-IsText ps w.1)
text_of-IsText (numeric m ds ∷ ps) w = (
  encode_rune (number ds),
  text_of ps,
  refl,
  encode_rune-Encodes (number ds) w.0.2,
  text_of-IsText ps w.1,
)

-- A text in which some characters are written as numeric escapes, with two, four or eight hex digits
-- in lower or upper case, at least one, and in which no other backslash stands, decodes to that text:
-- each code point as its UTF-8, and a surrogate as U+FFFD.
pub unescape_backslash-written :
    (ps : List Part)
    → WellWritten ps
    → has_numeric ps ≡ true
    → (out : Bytes) × (unescape_backslash (written ps) ≡ some out) × IsText ps out
unfolding unescape_backslash
unescape_backslash-written ps w h =
    (text_of ps, rw (decode-written ps w, written-has_backslash ps h, h) refl, text_of-IsText ps w)
