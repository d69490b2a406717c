-- ===== src/Examples/Unescape.antt =====
-- Escaped texts of internal/engine/unescape.go.
use glovebox.Prelude.{ℕ, Bytes, false, ◌≡◌, refl, true, List, [], ◌∷◌, codes, some, eq_bytes, arith}
use glovebox.Prelude.Utf8.{runes?, is_utf8, encode_rune}
use glovebox.Engine.Matcher.{index}
use glovebox.Prelude.{has_prefix}
use glovebox.Engine.Unescape.Digits.{Digit}
use glovebox.Engine.Unescape.Percent.{unescape_percent}
use glovebox.Engine.Unescape.Percent.RoundTrip.{
  Piece, plain, escaped, WellSpelled, unescape_percent-spelled,
}
use glovebox.Engine.Unescape.FormPlus.{
  unescape_form_plus, decode_runs, decode_queries, plus_to_space, is_url_delimiter, run_until,
  is_form_encoded_run, separators, joins, is_form_token_byte, opens_url_query,
  is_reference_boundary,
}
use glovebox.Engine.Unescape.Backslash.{unescape_backslash}
use glovebox.Engine.Unescape.Backslash.Numeric.{
  Part, literal, numeric, small_x, IsText, WellWritten, unescape_backslash-written,
}

abbrev digit : ℕ → Digit
digit n = record { value = n; is_upper = false }

-- "a%20b%2520": the escape of "%" is decoded once.
abbrev spaced : List Piece
spaced =
    plain b'a'
    ∷ escaped (digit 2) (digit 0)
    ∷ escaped (digit 2) (digit 5)
    ∷ plain b'2'
    ∷ plain b'0'
    ∷ []

spaced-WellSpelled : WellSpelled spaced
spaced-WellSpelled = (
  λ e. omega (arith, e),
  (
    (omega arith, omega arith),
    ((omega arith, omega arith), (λ e. omega (arith, e), (λ e. omega (arith, e), tt))),
  ),
)

spaced_utf8 : is_utf8 (codes "a %20") ≡ true
unfolding is_utf8
spaced_utf8 = refl

unescape_percent-spelled_example : unescape_percent (codes "a%20%2520") ≡ some (codes "a %20")
unescape_percent-spelled_example =
    unescape_percent-spelled spaced spaced-WellSpelled refl spaced_utf8

override_found : unescape_form_plus (codes "a+b+c+d") ≡ some (codes "a b c d")
unfolding unescape_form_plus eq_bytes decode_runs decode_queries is_url_delimiter
    is_form_encoded_run separators run_until joins is_form_token_byte plus_to_space
override_found = refl

-- The fragment after a query is rewritten too, when the query's own "+" make the whole token look
-- like a form body.
fragment_rewritten :
    unescape_form_plus (codes "x.y/z?q=a+b+c+d#e+f") ≡ some (codes "x.y/z?q=a b c d#e f")
unfolding unescape_form_plus eq_bytes decode_runs decode_queries is_url_delimiter
    is_form_encoded_run separators run_until joins is_form_token_byte plus_to_space opens_url_query
    is_reference_boundary index has_prefix
fragment_rewritten = refl

-- "a\x20b"
abbrev parts : List Part
parts = literal b'a' ∷ numeric small_x (digit 2 ∷ digit 0 ∷ []) ∷ literal b'b' ∷ []

parts-WellWritten : WellWritten parts
parts-WellWritten = (
  λ e. omega (arith, e),
  (((omega arith, (omega arith, tt)), refl, omega arith), (λ e. omega (arith, e), tt)),
)

unescape_backslash-written_example :
    (out : Bytes) × (unescape_backslash (codes "a\\x20b") ≡ some out) × IsText parts out
unescape_backslash-written_example = unescape_backslash-written parts parts-WellWritten refl

euro : runes? (0xe2 ∷ 0x82 ∷ 0xac ∷ 0x41 ∷ []) ≡ some (0x20ac ∷ 0x41 ∷ [])
unfolding runes?
euro = refl

overlong : is_utf8 (0xc0 ∷ 0x80 ∷ []) ≡ false
unfolding is_utf8
overlong = refl

encode_euro : encode_rune 0x20ac ≡ 0xe2 ∷ 0x82 ∷ 0xac ∷ []
unfolding encode_rune
encode_euro = refl
