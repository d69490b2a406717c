-- ===== src/Engine/Matcher/Occurrences.antt =====
-- The offsets that findAllOffsets of internal/engine/matcher.go returns.
use glovebox.Prelude.{
  ℕ, zero, suc, ◌+◌, ◌-◌, ◌≤◌, ◌<◌, ◌≡◌, ◌≢◌, ◌↔◌, refl, sym, ap, ◌∙◌, inl, inr, true, false, List,
  [], ◌∷◌, All, arith, length, drop, Bytes, has_prefix, Option, none, some, Option-cases,
  Bool-cases,
}
use native.Mathlib.Nat.{add_assoc}
use glovebox.Engine.Matcher.{index, offsets_from, find_all_offsets}

-- The needle stands at the position.
abbrev pub OccursAt : Bytes → Bytes → ℕ → Type 0
OccursAt haystack needle p = has_prefix (drop p haystack) needle ≡ true

has_prefix-le : (s n : Bytes) → has_prefix s n ≡ true → length n ≤ length s
unfolding has_prefix
has_prefix-le s [] h = omega arith
has_prefix-le [] (y ∷ n) h = cc
has_prefix-le (x ∷ s) (y ∷ n) h = omega (arith, has_prefix-le s n (ground arith))

length-drop : (p : ℕ) (s : Bytes) → length (drop p s) ≡ length s - p
length-drop zero s = omega arith
length-drop (suc p) [] = omega arith
length-drop (suc p) (x ∷ s) = omega (arith, length-drop p s)

drop-nil : (p : ℕ) → drop {A = ℕ} p [] ≡ []
drop-nil zero = refl
drop-nil (suc p) = refl

drop-drop : (p q : ℕ) (s : Bytes) → drop q (drop p s) ≡ drop (p + q) s
drop-drop zero q s = ap (λ k. drop k s) (omega arith)
drop-drop (suc p) q [] = drop-nil q ∙ sym (drop-nil (suc p + q))
drop-drop (suc p) q (x ∷ s) =
    let e : suc (p + q) ≡ suc p + q = omega arith in
    drop-drop p q s ∙ ap (λ (k : ℕ). drop k (x ∷ s)) e

some-suc :
    (o : Option ℕ) (i : ℕ)
    → elim o [ none ↦ none | some k ↦ some (suc k) ] ≡ some i
    → (k : ℕ) × (o ≡ some k) × (i ≡ suc k)
some-suc none i h = cc
some-suc (some k) i h = (k, refl, cc)

index_sound : (s n : Bytes) (i : ℕ) → index s n ≡ some i → OccursAt s n i
unfolding index
index_sound [] n zero h = ground arith
index_sound [] n (suc i) h = absurd (ground arith)
index_sound (b ∷ s) n i h = elim (Bool-cases (has_prefix (b ∷ s) n)) [
  | inl e ↦ let z : i ≡ 0 = ground arith in rw z e
  | inr e ↦ let t = some-suc (index s n) i (ground arith) in rw (t.2) (index_sound s n t.0 t.1)
]

index-none : (s n : Bytes) → index s n ≡ none → (p : ℕ) → has_prefix (drop p s) n ≡ false
unfolding index
index-none [] n h zero = ground arith
index-none [] n h (suc p) = ground arith
index-none (b ∷ s) n h zero = ground arith
index-none (b ∷ s) n h (suc p) = index-none s n (ground arith) p

-- Positions that lie apart: each match ends before the next begins.
abbrev pub Apart : ℕ → ℕ → List ℕ → Type 0
Apart len low [] = Unit
Apart len low (p ∷ ps) = (low ≤ p) × Apart len (p + len) ps

length-pos : (s : Bytes) → s ≢ [] → 0 < length s
length-pos [] h = absurd (h refl)
length-pos (b ∷ s) h = omega arith

-- What the search from `offset` on returns for the rest of the haystack.
abbrev Found : ℕ → Bytes → Bytes → List ℕ → Type 0
Found offset rest needle ps =
    All (λ p. (q : ℕ) × (p ≡ offset + q) × OccursAt rest needle q) ps
    × Apart (length needle) offset ps
    × (ps ≡ [] → (q : ℕ) → has_prefix (drop q rest) needle ≡ false)

shift :
    (offset k : ℕ) (rest needle : Bytes) (ps : List ℕ)
    → All (λ p. (q : ℕ) × (p ≡ offset + k + q) × OccursAt (drop k rest) needle q) ps
    → All (λ p. (q : ℕ) × (p ≡ offset + q) × OccursAt rest needle q) ps
shift offset k rest needle [] h = tt
shift offset k rest needle (p ∷ ps) ((q, e, o), h) =
    ((k + q, omega arith, rw (sym (drop-drop k q rest)) o), shift offset k rest needle ps h)

offsets_from-Found :
    (fuel offset : ℕ) (rest needle : Bytes)
    → needle ≢ []
    → length rest < fuel
    → (ps : List ℕ) × (offsets_from fuel offset rest needle ≡ some ps) × Found offset rest needle ps
unfolding offsets_from
offsets_from-Found zero offset rest needle ne h = absurd (omega arith)
offsets_from-Found (suc fuel) offset rest needle ne h = elim (Option-cases (index rest needle)) [
  | inl e ↦ ([], rw (e, offsets_from), (tt, tt, λ z q. index-none rest needle e q))
  | inr (i, e) ↦
      let k = i + length needle in
      let at_i = index_sound rest needle i e in
      let fits = has_prefix-le (drop i rest) needle at_i in
      let pos = length-pos needle ne in
      let (ps, r, f) =
        offsets_from-Found fuel (offset + k) (drop k rest) needle ne
          (omega (arith, length-drop k rest, length-drop i rest)) in
      (
        (offset + i) ∷ ps,
        rw (e, offsets_from, r),
        (
          ((i, refl, at_i), shift offset k rest needle ps f.0),
          (omega arith, rw (add_assoc offset i (length needle)) f.1),
          λ z. cc,
        ),
      )
]

plain :
    (s n : Bytes) (ps : List ℕ)
    → All (λ p. (q : ℕ) × (p ≡ 0 + q) × OccursAt s n q) ps
    → All (OccursAt s n) ps
plain s n [] h = tt
plain s n (p ∷ ps) ((q, e, o), h) = let z : p ≡ q = omega arith in (rw z o, plain s n ps h)

none_found :
    (s n : Bytes) (ps : List ℕ)
    → All (OccursAt s n) ps
    → ((q : ℕ) → has_prefix (drop q s) n ≡ false)
    → ps ≡ []
none_found s n [] h k = refl
none_found s n (p ∷ ps) h k = absurd (ground (arith, h.0, k p))

index_nil : (s : Bytes) → index s [] ≡ some 0
unfolding index has_prefix
index_nil [] = refl
index_nil (b ∷ s) = refl

-- For a needle that is not empty the search ends; it returns positions of the needle that do not
-- overlap, and it returns none exactly when the needle stands nowhere.
pub find_all_offsets_lem :
    (haystack needle : Bytes)
    → needle ≢ []
    → (ps : List ℕ) × (find_all_offsets haystack needle ≡ some ps)
      × All (OccursAt haystack needle) ps
      × Apart (length needle) 0 ps
      × ((ps ≡ []) ↔ ((q : ℕ) → has_prefix (drop q haystack) needle ≡ false))
unfolding find_all_offsets
find_all_offsets_lem haystack needle ne =
    let (ps, r, f) =
      offsets_from-Found (suc (length haystack)) 0 haystack needle ne (omega arith) in
    let hits = plain haystack needle ps f.0 in
    (ps, r, hits, f.1, (f.2, none_found haystack needle ps hits))

-- With an empty needle the search ends for no amount of fuel.
empty_needle_diverges :
    (fuel offset : ℕ) (haystack : Bytes) → offsets_from fuel offset haystack [] ≡ none
unfolding offsets_from
empty_needle_diverges zero offset haystack = refl
empty_needle_diverges (suc fuel) offset haystack =
    rw (index_nil haystack, offsets_from, empty_needle_diverges fuel (offset + 0) haystack)
