-- ===== src/Routing/Sanitize/Inert.antt =====
-- What a reviewer can be shown: the bytes and the size of the texts that internal/routing/sanitize.go
-- writes.
use glovebox.Prelude.{
  ℕ, zero, suc, ◌+◌, ◌*◌, ◌/◌, ◌%◌, ◌≤◌, ◌<◌, ◌≡◌, ◌⊎◌, inl, inr, refl, Bool, true, false, not,
  ◌&&◌, ◌||◌, ltb, leb, ◌==◌, [], ◌∷◌, ◌++◌, Bytes, codes, All, all, length, length-append, drop,
  arith, Bool-cases,
}
use glovebox.Routing.Sanitize.{
  hex_digit, hex, escape_rune, rune_error, content_rune, field_rune, sanitize_chars,
  sanitize_content, sanitize_header, sanitize_footer, sanitize_field_chars, sanitize_field,
  max_sanitized_chars, max_sanitized_field_chars,
}

-- A printable ASCII character.
abbrev pub Printable : ℕ → Type 0
Printable c = (0x20 ≤ c) × (c ≤ 0x7e)

-- Printable, a tab or an end of a line.
abbrev pub Inert : ℕ → Type 0
Inert c = (c ≡ 9) ⊎ (c ≡ 10) ⊎ (c ≡ 13) ⊎ Printable c

All-append : (P : ℕ → Type 0) (xs ys : Bytes) → All P xs → All P ys → All P (xs ++ ys)
All-append P [] ys h k = k
All-append P (x ∷ xs) ys h k = (h.0, All-append P xs ys h.1 k)

All-weaken : (P Q : ℕ → Type 0) (xs : Bytes) → ((c : ℕ) → P c → Q c) → All P xs → All Q xs
All-weaken P Q [] w h = tt
All-weaken P Q (x ∷ xs) w h = (w x h.0, All-weaken P Q xs w h.1)

-- Printable text of at most `n` characters.
abbrev Short : ℕ → Bytes → Type 0
Short n xs = All Printable xs × (length xs ≤ n)

Short-append : (m n : ℕ) (xs ys : Bytes) → Short m xs → Short n ys → Short (m + n) (xs ++ ys)
Short-append m n xs ys h k =
    (All-append Printable xs ys h.0 k.0, omega (arith, length-append xs ys, h.1, k.1))

hex_digit-Printable : (d : ℕ) → d < 16 → Printable (hex_digit d)
unfolding hex_digit
hex_digit-Printable d h = (ground arith, ground arith)

hex-Short : (width n : ℕ) → Short width (hex width n)
unfolding hex
hex-Short zero n = (tt, omega arith)
hex-Short (suc width) n =
    let s =
      Short-append width 1 (hex width (n / 16)) (hex_digit (n % 16) ∷ []) (hex-Short width (n / 16))
        ((hex_digit-Printable (n % 16) (omega arith), tt), omega arith) in
    (s.0, omega (arith, s.1))

-- The marks that the escapes start with.
mark_Short : (c : ℕ) → Printable c → Short 2 (0x5c ∷ c ∷ [])
mark_Short c p = (((omega arith, omega arith), (p, tt)), omega arith)

four_digits-Short : (r : ℕ) → Short 10 (codes "\\u" ++ hex 4 r)
four_digits-Short r =
    let s =
      Short-append 2 4 (codes "\\u") (hex 4 r) (mark_Short 117 (omega arith, omega arith))
        (hex-Short 4 r) in
    (s.0, omega (arith, s.1))

byte_escape-Short : (c : ℕ) → Short 10 (codes "\\x" ++ hex 2 c)
byte_escape-Short c =
    let s =
      Short-append 2 2 (codes "\\x") (hex 2 c) (mark_Short 120 (omega arith, omega arith))
        (hex-Short 2 c) in
    (s.0, omega (arith, s.1))

escape_rune-Short : (r : ℕ) → Short 10 (escape_rune r)
unfolding escape_rune
escape_rune-Short r = elim (Bool-cases (ltb 0xffff r)) [
  | inl q ↦ rw q (
      Short-append 2 8 (codes "\\U") (hex 8 r) (mark_Short 85 (omega arith, omega arith))
        (hex-Short 8 r))
  | inr q ↦ rw q (four_digits-Short r)
]

field_rune-Short : (r : ℕ) → Short 10 (field_rune r)
unfolding field_rune
field_rune-Short r = elim (Bool-cases (r == 10 || r == 13 || r == 9)) [
  | inl q ↦ rw q (((omega arith, omega arith), tt), omega arith)
  | inr q ↦ elim (Bool-cases (ltb r 0x20)) [
    | inl k ↦ rw (q, k) (four_digits-Short r)
    | inr k ↦ elim (Bool-cases (ltb 0x7e r)) [
      | inl m ↦ rw (q, k, m) (escape_rune-Short r)
      | inr m ↦ rw (q, k, m) (((ground (arith, k), ground (arith, m)), tt), omega arith)
    ]
  ]
]

-- Inert text of at most `n` characters.
abbrev Plain : ℕ → Bytes → Type 0
Plain n xs = All Inert xs × (length xs ≤ n)

Short-Plain : (n : ℕ) (xs : Bytes) → Short n xs → Plain n xs
Short-Plain n xs h = (All-weaken Printable Inert xs (λ c p. inr (inr (inr p))) h.0, h.1)

Plain-append : (m n : ℕ) (xs ys : Bytes) → Plain m xs → Plain n ys → Plain (m + n) (xs ++ ys)
Plain-append m n xs ys h k =
    (All-append Inert xs ys h.0 k.0, omega (arith, length-append xs ys, h.1, k.1))

kept_rune_Plain :
    (r : ℕ)
    → (ltb r 0x20 && not (r == 10) && not (r == 13) && not (r == 9)) ≡ false
    → ltb 0x7e r ≡ false
    → Inert r
kept_rune_Plain r h k = ground (arith, h, k)

content_rune-Plain : (r : ℕ) → Plain 10 (content_rune r)
unfolding content_rune
content_rune-Plain r =
    elim (Bool-cases (ltb r 0x20 && not (r == 10) && not (r == 13) && not (r == 9))) [
      | inl q ↦ rw q (Short-Plain 10 (codes "\\u" ++ hex 4 r) (four_digits-Short r))
      | inr q ↦ elim (Bool-cases (ltb 0x7e r)) [
        | inl m ↦ rw (q, m) (Short-Plain 10 (escape_rune r) (escape_rune-Short r))
        | inr m ↦ rw (q, m) ((kept_rune_Plain r q m, tt), omega arith)
      ]
    ]

abbrev is_plain : ℕ → Bool
is_plain c = c == 10 || (leb 0x20 c && leb c 0x7e)

is_plain-Inert : (c : ℕ) → is_plain c ≡ true → Inert c
is_plain-Inert c h = ground (arith, h)

-- Constant text is checked by a run.
all_plain : (xs : Bytes) → all is_plain xs ≡ true → All Inert xs
all_plain [] h = tt
all_plain (x ∷ xs) h = (is_plain-Inert x (ground (arith, h)), all_plain xs (ground (arith, h)))

module _ (decode_rune : Bytes → ℕ × ℕ) where
  sanitize_chars-Plain :
      (n : ℕ) (content : Bytes) → Plain (10 * n) (sanitize_chars decode_rune n content)
  unfolding sanitize_chars
  sanitize_chars-Plain zero content = (tt, omega arith)
  sanitize_chars-Plain (suc n) [] = (tt, omega arith)
  sanitize_chars-Plain (suc n) (c ∷ content) =
      let r = (decode_rune (c ∷ content)).0 in
      let size = (decode_rune (c ∷ content)).1 in
      elim (Bool-cases (r == rune_error && leb size 1)) [
        | inl q ↦
            let s =
              Plain-append 10 (10 * n) (codes "\\x" ++ hex 2 c)
                (sanitize_chars decode_rune n content)
                (Short-Plain 10 (codes "\\x" ++ hex 2 c) (byte_escape-Short c))
                (sanitize_chars-Plain n content) in
            rw q (s.0, omega (arith, s.1))
        | inr q ↦
            let s =
              Plain-append 10 (10 * n) (content_rune r)
                (sanitize_chars decode_rune n (drop size (c ∷ content))) (content_rune-Plain r)
                (sanitize_chars-Plain n (drop size (c ∷ content))) in
            rw q (s.0, omega (arith, s.1))
      ]

  sanitize_field_chars-Short :
      (n : ℕ) (value : Bytes) → Short (10 * n + 3) (sanitize_field_chars decode_rune n value)
  unfolding sanitize_field_chars
  sanitize_field_chars-Short zero [] = (tt, omega arith)
  sanitize_field_chars-Short (suc n) [] = (tt, omega arith)
  sanitize_field_chars-Short zero (c ∷ value) = (
    ((omega arith, omega arith), ((omega arith, omega arith), ((omega arith, omega arith), tt))),
    omega arith,
  )
  sanitize_field_chars-Short (suc n) (c ∷ value) =
      let next = decode_rune (c ∷ value) in
      let s =
        Short-append 10 (10 * n + 3) (field_rune next.0)
          (sanitize_field_chars decode_rune n (drop next.1 (c ∷ value))) (field_rune-Short next.0)
          (sanitize_field_chars-Short n (drop next.1 (c ∷ value))) in
      (s.0, omega (arith, s.1))

  -- However runes are decoded, the text of a field for a reviewer is printable ASCII on one line, of at
  -- most 2563 characters.
  pub sanitize_field-Printable :
      (value : Bytes)
      → All Printable (sanitize_field decode_rune value)
        × (length (sanitize_field decode_rune value) ≤ 2563)
  unfolding sanitize_field
  sanitize_field-Printable value = sanitize_field_chars-Short max_sanitized_field_chars value

  -- However runes are decoded, the text of an item for a reviewer has only printable ASCII, tabs and
  -- ends of lines, and at most 41048 characters, the header and the last line included.
  pub sanitize_content-Inert :
      (content : Bytes)
      → All Inert (sanitize_content decode_rune content)
        × (length (sanitize_content decode_rune content) ≤ 41048)
  unfolding sanitize_content
  sanitize_content-Inert content =
      let body =
        Plain-append 40960 31 (sanitize_chars decode_rune max_sanitized_chars content)
          sanitize_footer (sanitize_chars-Plain max_sanitized_chars content)
          (all_plain sanitize_footer refl, omega arith) in
      Plain-append 57 40991 sanitize_header
        (sanitize_chars decode_rune max_sanitized_chars content ++ sanitize_footer)
        (all_plain sanitize_header refl, omega arith) body
