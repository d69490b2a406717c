-- ===== src/Engine/Matcher.antt =====
-- internal/engine/matcher.go: the substring search of the matchers.
pub mod Occurrences
use glovebox.Prelude.{
  ℕ, zero, suc, ◌+◌, ◌≡◌, refl, Bool, true, false, List, [], ◌∷◌, ◌++◌, map, length, drop, Bytes,
  has_prefix, Option, none, some, if◌then◌else◌,
}

pub record MatchResult : Type 0 where
  pub pattern : Bytes
  pub position : ℕ

-- bytes.Index(s, sep)
unfoldable pub index : Bytes → Bytes → Option ℕ
index [] needle = if has_prefix [] needle then some 0 else none
index (b ∷ s) needle =
    let later = index s needle in
    if has_prefix (b ∷ s) needle then some 0 else elim later [ none ↦ none | some i ↦ some (suc i) ]

-- findAllOffsets from `offset` on, over the rest of the haystack. The outer option is none when the
-- fuel runs out.
unfoldable pub offsets_from : ℕ → ℕ → Bytes → Bytes → Option (List ℕ)
offsets_from zero offset rest needle = none
offsets_from (suc fuel) offset rest needle = elim (index rest needle) [
  | none ↦ some []
  | some i ↦
      elim (offsets_from fuel (offset + (i + length needle)) (drop (i + length needle) rest)
        needle) [ none ↦ none | some ps ↦ some ((offset + i) ∷ ps) ]
]

-- A round for each byte, and the last one.
unfoldable pub find_all_offsets : Bytes → Bytes → Option (List ℕ)
find_all_offsets haystack needle = offsets_from (suc (length haystack)) 0 haystack needle

-- SubstringMatcher.Match
unfoldable pub match_substrings : Bytes → List Bytes → Option (List MatchResult)
match_substrings content [] = some []
match_substrings content (p ∷ ps) =
    let rest = match_substrings content ps in
    elim (find_all_offsets content p) [
      | none ↦ none
      | some positions ↦ elim rest [
        | none ↦ none
        | some results ↦
            some (map (λ pos. record { pattern = p; position = pos }) positions ++ results)
      ]
    ]

-- CaseInsensitiveMatcher.Match, over the lower case of the standard library.
unfoldable pub match_case_insensitive :
    (Bytes → Bytes) → Bytes → List Bytes → Option (List MatchResult)
match_case_insensitive to_lower content [] = some []
match_case_insensitive to_lower content (p ∷ ps) =
    let rest = match_case_insensitive to_lower content ps in
    elim (find_all_offsets (to_lower content) (to_lower p)) [
      | none ↦ none
      | some positions ↦ elim rest [
        | none ↦ none
        | some results ↦
            some (map (λ pos. record { pattern = p; position = pos }) positions ++ results)
      ]
    ]
