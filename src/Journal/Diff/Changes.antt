-- ===== src/Journal/Diff/Changes.antt =====
-- changes of internal/journal/diff/diff.go: which fields an update lists.
use glovebox.Prelude.{
  ◌≡◌, ◌⊎◌, ◌↔◌, refl, sym, ap, ◌∙◌, true, [], ◌∷◌, arith, Bytes, eq→eq_bytes, eq_bytes_refl,
  some-injective, eq_bytes_iff, inl, inr, Bool-cases, Option-cases, Option, none, some,
  if◌then◌else◌,
}
use glovebox.Journal.Names.{RawMessage}
use glovebox.Journal.Fields.{Assoc, Fields, find, put, get, raw_equal, or_empty}
use glovebox.Journal.Fields.Laws.{find-put, IsMap, put-IsMap, raw_equal_same}
use glovebox.Journal.Diff.Types.{Change}
use glovebox.Journal.Diff.{changed_values, added_values, changes}

-- The entry of a key whose value was `v`.
abbrev changed_entry : Fields → Bytes → RawMessage → Option Change → Option Change
changed_entry after k v other =
    if raw_equal v (get after k) then other else some (record { old = v; new = get after k })

find-changed_values :
    (before after : Fields) (out : Assoc Change) (k : Bytes)
    → IsMap before
    → find (changed_values before after out) k
      ≡ elim (find before k) [ none ↦ find out k | some v ↦ changed_entry after k v (find out k) ]
unfolding changed_values find
find-changed_values [] after out k m = refl
find-changed_values ((j, v) ∷ before) after out k m =
    let c : Change = record { old = v; new = get after j } in
    ground (
      arith,
      eq_bytes_iff j k,
      m.0,
      find-put out j k c,
      find-changed_values before after out k m.1,
      find-changed_values before after (put out j c) k m.1,
    )

find-added_values :
    (before after : Fields) (out : Assoc Change) (k : Bytes)
    → IsMap after
    → find (added_values before after out) k ≡ elim (find after k) [
      | none ↦ find out k
      | some v ↦ elim (find before k) [
        | none ↦ some (record { old = none; new = v })
        | some _ ↦ find out k
      ]
    ]
unfolding added_values find
find-added_values before [] out k m = refl
find-added_values before ((j, v) ∷ after) out k m =
    let c : Change = record { old = none; new = v } in
    ground (
      arith,
      eq_bytes_iff j k,
      m.0,
      find-put out j k c,
      find-added_values before after out k m.1,
      find-added_values before after (put out j c) k m.1,
    )

-- What changes lists for a key: nothing when both sides agree, and otherwise the old and new values.
pub find-changes :
    (before after : Fields) (k : Bytes)
    → IsMap before
    → IsMap after
    → find (changes before after) k ≡ elim (find before k) [
      | none ↦ elim (find after k) [ none ↦ none | some v ↦ some (record { old = none; new = v }) ]
      | some v ↦ changed_entry after k v none
    ]
unfolding changes find get
find-changes before after k m n = ground (
  arith,
  find-added_values before after (changed_values before after []) k n,
  find-changed_values before after [] k m,
)

changed_values-IsMap :
    (before after : Fields) (out : Assoc Change)
    → IsMap out
    → IsMap (changed_values before after out)
unfolding changed_values
changed_values-IsMap [] after out h = h
changed_values-IsMap ((j, v) ∷ before) after out h = elim (Bool-cases (raw_equal v (get after j))) [
  | inl e ↦ rw (changed_values, e) (changed_values-IsMap before after out h)
  | inr e ↦ rw (changed_values, e) (changed_values-IsMap before after _ (put-IsMap out j _ h))
]

added_values-IsMap :
    (before after : Fields) (out : Assoc Change) → IsMap out → IsMap (added_values before after out)
unfolding added_values
added_values-IsMap before [] out h = h
added_values-IsMap before ((j, v) ∷ after) out h = elim (Option-cases (find before j)) [
  | inl e ↦ rw (added_values, e) (added_values-IsMap before after _ (put-IsMap out j _ h))
  | inr (u, e) ↦ rw (added_values, e) (added_values-IsMap before after out h)
]

-- The changes are a map.
pub changes-IsMap : (before after : Fields) → IsMap (changes before after)
unfolding changes
changes-IsMap before after =
    added_values-IsMap before after _ (changed_values-IsMap before after [] tt)

-- A field of a row and the same field of a record: missing in both, or of one value, nil and empty
-- taken as equal, and a value that the record does not have as nil.
abbrev pub SameField : Fields → Fields → Bytes → Type 0
SameField before after k =
    ((find before k ≡ none) × (find after k ≡ none))
    ⊎ ((u : RawMessage) × (find before k ≡ some u) × (or_empty u ≡ or_empty (get after k)))

no_entries : (m : Assoc Change) → ((k : Bytes) → find m k ≡ none) → m ≡ []
unfolding find
no_entries [] h = refl
no_entries ((k, c) ∷ m) h = absurd (ground (arith, h k, eq_bytes_refl k))

differ : (u v w : RawMessage) → u ≡ v → or_empty v ≡ or_empty w → raw_equal u w ≡ true
unfolding raw_equal
differ u v w p q = eq→eq_bytes (or_empty u) (or_empty w) (ap or_empty p ∙ q)

-- What changes leaves out is the same on both sides.
unlisted_iff :
    (before after : Fields) (k : Bytes)
    → IsMap before
    → IsMap after
    → (find (changes before after) k ≡ none) ↔ SameField before after k
unlisted_iff before after k m n =
    let listed = find-changes before after k m n in
    elim (Option-cases (find before k)) [
      | inl b ↦ elim (Option-cases (find after k)) [
        | inl a ↦ (λ h. inl (b, a), λ h. ground (arith, listed, b, a))
        | inr (v, a) ↦ (
          λ h. absurd (ground (arith, listed, b, a, h)),
          λ h. elim h [
            | inl (p, q) ↦ absurd (ground (arith, q, a))
            | inr (u, p, q) ↦ absurd (ground (arith, p, b))
          ],
        )
      ]
      | inr (u, b) ↦ elim (Bool-cases (raw_equal u (get after k))) [
        | inl e ↦
            (λ h. inr (u, b, raw_equal_same u (get after k) e), λ h. ground (arith, listed, b, e))
        | inr e ↦ (
          λ h. absurd (ground (arith, listed, b, e, h)),
          λ h. elim h [
            | inl (p, q) ↦ absurd (ground (arith, p, b))
            | inr (v, p, q) ↦
                absurd (ground (arith, e, differ u v (get after k) (some-injective (sym b ∙ p)) q))
          ],
        )
      ]
    ]

-- Nothing is listed exactly when every field is the same.
pub changes_nil_iff :
    (before after : Fields)
    → IsMap before
    → IsMap after
    → (changes before after ≡ []) ↔ ((k : Bytes) → SameField before after k)
unfolding find
changes_nil_iff before after m n = (
  λ h k. (unlisted_iff before after k m n).0 (ap (λ x. find x k) h),
  λ h. no_entries (changes before after) (λ k. (unlisted_iff before after k m n).1 (h k)),
)
