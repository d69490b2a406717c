-- ===== src/Journal/Names.antt =====
-- Shared text rules of the journal's records, from internal/journal/record/value.go: names, audience
-- tokens, the characters that no stored text may carry, and the refusals.
use glovebox.Prelude.{
  ℕ, Bool, true, false, ◌&&◌, ◌||◌, [], ◌∷◌, leb, ◌==◌, all, Bytes, length, ◌≡◌, codes, Option, ◌≢◌,
  arith,
}
use glovebox.Prelude.Join.{Lacks}

-- The HTTP status and the reason code; the operator's detail text is not kept.
pub record Rejection : Type 0 where
  pub status : ℕ
  pub reason : Bytes

abbrev pub schema_err : Rejection
schema_err = record { status = 422; reason = codes "schema" }

abbrev pub too_large : Rejection
too_large = record { status = 413; reason = codes "too_large" }

is_lower : ℕ → Bool
is_lower c = leb b'a' c && leb c b'z'

is_word : ℕ → Bool
unfolding is_lower
is_word c = is_lower c || (leb b'0' c && leb c b'9') || (c == b'_')

-- ^[a-z][a-z0-9_]{0,max}$
matches_word : ℕ → Bytes → Bool
unfolding is_word
matches_word max [] = false
matches_word max (c ∷ cs) = is_lower c && all is_word cs && leb (length cs) max

-- nameRE
unfoldable pub valid_name : Bytes → Bool
unfolding matches_word
valid_name s = matches_word 63 s

-- tokenRE
unfoldable pub valid_token : Bytes → Bool
unfolding matches_word
valid_token s = matches_word 31 s

-- High and bidi controls
unfoldable pub suspicious : ℕ → Bool
suspicious r =
    (leb 0x80 r && leb r 0x9f)
    || (leb 0x202a r && leb r 0x202e)
    || (leb 0x2066 r && leb r 0x2069)
    || r == 0x200e
    || r == 0x200f
    || r == 0x061c
    || r == 0x200b
    || r == 0xfeff
    || r == 0x2028
    || r == 0x2029

word_ne_comma : (c : ℕ) → is_word c ≡ true → c ≢ b','
unfolding is_word
word_ne_comma c h e = ground arith

words_lack_comma : (cs : Bytes) → all is_word cs ≡ true → Lacks b',' cs
words_lack_comma [] h = tt
words_lack_comma (c ∷ cs) h = (word_ne_comma c (ground arith), words_lack_comma cs (ground arith))

-- A well-formed token holds no comma.
pub valid_token-Lacks : (t : Bytes) → valid_token t ≡ true → Lacks b',' t
unfolding valid_token
valid_token-Lacks [] h = tt
valid_token-Lacks (c ∷ cs) h = (λ e. ground arith, words_lack_comma cs (ground arith))

-- json.RawMessage: none is nil.
abbrev pub RawMessage : Type 0
RawMessage = Option Bytes
