-- ===== src/Journal/Diff/Classes.antt =====
-- How Diff of internal/journal/diff/diff.go sorts the records of a snapshot.
use glovebox.Prelude.{
  ◌≤◌, ◌<◌, ◌≡◌, ◌↔◌, ◌⊎◌, refl, inl, inr, true, false, List, [], ◌∷◌, arith, Bytes, eq_bytes,
  eq_bytes→eq, eq→eq_bytes, eq_bytes_iff, some, Option-cases, Bool-cases, if◌then◌else◌, is_nil,
  some-injective,
}
use glovebox.Journal.Fields.{find}
use glovebox.Journal.Fields.Laws.{IsMap}
use glovebox.Journal.Diff.Changes.{SameField, changes_nil_iff}
use glovebox.Journal.Diff.Types.{Current, NormRecord, Input}
use glovebox.Journal.Diff.{equal_strings, changes, compare_row, classify, confirm, stale}

equal_strings_iff : (a b : List Bytes) → (equal_strings a b ≡ true) ↔ (a ≡ b)
unfolding equal_strings
equal_strings_iff [] [] = (λ h. refl, λ h. refl)
equal_strings_iff [] (y ∷ b) = (λ h. cc, λ h. cc)
equal_strings_iff (x ∷ a) [] = (λ h. cc, λ h. cc)
equal_strings_iff (x ∷ a) (y ∷ b) =
    let ih = equal_strings_iff a b in
    (
      λ h. ground (arith, eq_bytes_iff x y, ih.0 (ground arith)),
      λ h. ground (arith, eq→eq_bytes x y (cc h), ih.1 (cc h)),
    )

-- The record shows nothing new against its row: the row is live, in the snapshot's scope (or has
-- none), with the same audience, and its hash or every field agrees.
abbrev pub ShowsNothingNew : Input → NormRecord → Current → Type 0
ShowsNothingNew inp r c =
    (c.removed ≡ false)
    × ((c.scope ≡ inp.scope) ⊎ (c.scope ≡ []))
    × (c.audience ≡ r.audience)
    × ((c.hash ≡ r.hash) ⊎ ((k : Bytes) → SameField c.fields r.fields k))

is_nil_iff : {A : Type 0} (xs : List A) → (is_nil xs ≡ true) ↔ (xs ≡ [])
is_nil_iff [] = (λ h. refl, λ h. refl)
is_nil_iff (x ∷ xs) = (λ h. cc, λ h. cc)

unmoved :
    (inp : Input) (c : Current)
    → (c.scope ≡ inp.scope) ⊎ (c.scope ≡ [])
    → is_nil (if eq_bytes c.scope inp.scope then [] else c.scope) ≡ true
unmoved inp c h = ground (arith, eq→eq_bytes c.scope inp.scope)

same_fields :
    (c : Current) (r : NormRecord)
    → IsMap c.fields
    → IsMap r.fields
    → (c.hash ≡ r.hash) ⊎ ((k : Bytes) → SameField c.fields r.fields k)
    → (eq_bytes c.hash r.hash ≡ true) ⊎ (is_nil (changes c.fields r.fields) ≡ true)
same_fields c r m n (inl e) = inl (eq→eq_bytes c.hash r.hash e)
same_fields c r m n (inr h) =
    inr ((is_nil_iff (changes c.fields r.fields)).1 ((changes_nil_iff c.fields r.fields m n).1 h))

compare_row_confirms :
    (inp : Input) (r : NormRecord) (c : Current)
    → IsMap c.fields
    → IsMap r.fields
    → (compare_row inp r c ≡ confirm r.key)
      ↔ ((c.last_confirmed_at ≤ inp.observed_at) × ShowsNothingNew inp r c)
unfolding compare_row
compare_row_confirms inp r c m n = (
  λ h. (
    ground arith,
    (
      ground arith,
      elim (Bool-cases (eq_bytes c.scope inp.scope)) [
        | inl e ↦ inl (eq_bytes→eq c.scope inp.scope e)
        | inr e ↦ inr ((is_nil_iff c.scope).0 (ground arith))
      ],
      (equal_strings_iff c.audience r.audience).0 (ground arith),
      elim (Bool-cases (eq_bytes c.hash r.hash)) [
        | inl e ↦ inl (eq_bytes→eq c.hash r.hash e)
        | inr e ↦ inr (
            (changes_nil_iff c.fields r.fields m n).0
              ((is_nil_iff (changes c.fields r.fields)).0 (ground arith)))
      ],
    ),
  ),
  λ h. ground (
    arith,
    h.0,
    unmoved inp c h.1.1,
    (equal_strings_iff c.audience r.audience).1 h.1.2,
    eq_bytes_iff c.hash r.hash,
    same_fields c r m n h.1.3,
  ),
)

compare_row_stale :
    (inp : Input) (r : NormRecord) (c : Current)
    → (compare_row inp r c ≡ stale r.key) ↔ (inp.observed_at < c.last_confirmed_at)
unfolding compare_row
compare_row_stale inp r c = (λ h. ground arith, λ h. ground arith)

-- A record of the snapshot is left alone as stale exactly when its row was confirmed after the
-- snapshot was observed; and it only confirms its row exactly when the row is not newer and the
-- record shows nothing new against it: the row is live, in the snapshot's scope or none, with the same
-- audience, and the hashes or all fields agree. In both field maps a name stands once.
pub classify_iff :
    (inp : Input) (r : NormRecord)
    → ((c : Current) → find inp.current r.key ≡ some c → IsMap c.fields)
    → IsMap r.fields
    → ((classify inp r ≡ stale r.key) ↔ (
        (c : Current) × (find inp.current r.key ≡ some c)
        × (inp.observed_at < c.last_confirmed_at)))
      × ((classify inp r ≡ confirm r.key) ↔ (
          (c : Current) × (find inp.current r.key ≡ some c)
          × (c.last_confirmed_at ≤ inp.observed_at)
          × ShowsNothingNew inp r c))
unfolding classify
classify_iff inp r m n = elim (Option-cases (find inp.current r.key)) [
  | inl e ↦ rw (e, classify) ((λ h. cc, λ h. cc (h.1)), (λ h. cc, λ h. cc (h.1)))
  | inr (c, e) ↦
      rw (e, classify)
        (
          (
            λ h. (c, refl, (compare_row_stale inp r c).0 h),
            λ (d, q, k). (compare_row_stale inp r c).1 (rw (some-injective q) k),
          ),
          (
            λ h. let t = (compare_row_confirms inp r c (m c e) n).0 h in (c, refl, t.0, t.1),
            λ (d, q, k, w).
                (compare_row_confirms inp r c (m c e) n).1 (rw (some-injective q) (k, w)),
          ),
        )
]
