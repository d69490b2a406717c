-- ===== src/Engine/Unescape/FormPlus.antt =====
-- unescapeFormPlus of internal/engine/unescape.go and its tests. The two passes over the buffer are
-- loops over the content and the bytes written, which correspond one to one.
use glovebox.Prelude.{
  ℕ, suc, Bool, true, false, not, ◌&&◌, ◌||◌, [], ◌∷◌, reverse, leb, ltb, ◌==◌, any, length, Bytes,
  codes, eq_bytes, Option, none, some, if◌then◌else◌, is_nil,
}
use glovebox.Engine.Matcher.{index}

-- One of the bytes of a literal.
one_of : Bytes → ℕ → Bool
one_of set b = any (λ c. b == c) set

unfoldable pub is_url_delimiter : ℕ → Bool
unfolding one_of
is_url_delimiter b = leb b 0x20 || b == 0x7f || one_of (codes "\"'`<>()[]{}|\\^") b

unfoldable pub is_reference_boundary : ℕ → Bool
unfolding one_of
is_reference_boundary b = is_url_delimiter b || one_of (codes "=&,;?#") b

unfoldable pub is_form_token_byte : ℕ → Bool
unfolding one_of
is_form_token_byte b =
    (leb b'a' b && leb b b'z')
    || (leb b'A' b && leb b b'Z')
    || (leb b'0' b && leb b b'9')
    || leb 0x80 b
    || one_of (codes "%-_.~") b

-- The bytes before the first that ends a run.
unfoldable pub run_until : (ℕ → Bool) → Bytes → Bytes
run_until stop [] = []
run_until stop (b ∷ rest) = let run = run_until stop rest in if stop b then [] else b ∷ run

-- opensURLQuery, over the text before the "?" read backwards.
unfoldable pub opens_url_query : Bytes → Bool
opens_url_query before =
    let token = reverse (run_until is_reference_boundary before) in
    if is_nil token
    then false
    else if elim (index token (codes "://")) [ none ↦ false | some i ↦ true ]
        || any (λ b. b == b'/') token
    then true
    else elim (index token (codes ".")) [ none ↦ false | some dot ↦ ltb (suc dot) (length token) ]

-- A "+" joins two token bytes: the one before it, if any, and the first after it.
unfoldable pub joins : Option ℕ → Bytes → Bool
joins none rest = false
joins (some a) [] = false
joins (some a) (b ∷ rest) = is_form_token_byte a && is_form_token_byte b

-- The loop of isFormEncodedRun: the number of separators, or none at one that does not join.
unfoldable pub separators : Option ℕ → Bytes → Option ℕ
separators before [] = some 0
separators before (b ∷ rest) =
    let later = separators (some b) rest in
    if b == b'+'
    then (if joins before rest then elim later [ none ↦ none | some n ↦ some (suc n) ] else none)
    else later

unfoldable pub is_form_encoded_run : Bytes → Bool
is_form_encoded_run run = elim (separators none run) [ none ↦ false | some n ↦ leb 3 n ]

-- What decodePlus writes for a byte.
unfoldable pub plus_to_space : ℕ → ℕ
plus_to_space b = if b == b'+' then b' ' else b

ends_query : ℕ → Bool
ends_query c = c == b'#' || is_url_delimiter c

-- The first pass: `query` says that the byte stands in a query component; `before` is the text
-- before it, backwards.
unfoldable pub decode_queries : Bool → Bytes → Bytes → Bytes
unfolding ends_query
decode_queries query before [] = []
decode_queries query before (c ∷ rest) =
    let inside = query && not (ends_query c) in
    let opens = inside || (c == b'?' && opens_url_query before) in
    (if inside then plus_to_space c else c) ∷ decode_queries opens (c ∷ before) rest

-- The second pass, over the content and the buffer of the first: `token` is the answer for the token
-- that the byte stands in, once its first byte was met.
unfoldable pub decode_runs : Option Bool → Bytes → Bytes → Bytes
decode_runs token [] out = out
decode_runs token (c ∷ rest) [] = []
decode_runs token (c ∷ rest) (o ∷ out) =
    let form : Bool = elim token [
      | none ↦ is_form_encoded_run (run_until is_url_delimiter (c ∷ rest))
      | some decided ↦ decided
    ] in
    if is_url_delimiter c
    then o ∷ decode_runs none rest out
    else (if form then plus_to_space o else o) ∷ decode_runs (some form) rest out

-- The buffer differs from the content exactly when a "+" was rewritten.
unfoldable pub unescape_form_plus : Bytes → Option Bytes
unescape_form_plus content =
    let out = decode_runs none content (decode_queries false [] content) in
    if any (λ b. b == b'+') content then (if eq_bytes out content then none else some out) else none
