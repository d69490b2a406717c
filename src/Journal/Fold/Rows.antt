-- ===== src/Journal/Fold/Rows.antt =====
-- The map of rows by identity, and replaying one more event: internal/journal/diff/fold.go.
use glovebox.Prelude.{
  ◌≡◌, refl, true, false, List, [], ◌∷◌, ◌++◌, arith, any, any_eq_iff, Bytes, eq_bytes,
  eq_bytes_iff, eq_bytes_refl, some, if◌then◌else◌, Bool-cases, Option-cases, inl, inr,
}
use glovebox.Journal.Fields.{Fields, find, put, get, keys}
use glovebox.Journal.Names.{RawMessage}
use glovebox.Journal.Fields.Laws.{find-put, find-In, In-keys}
use glovebox.Journal.Fold.{
  Identity, FoldEvent, Rename, Rows, same_identity, find_row, put_row, or_zero, step_row, fold_from,
  copy_renamed, order_keys,
}
use glovebox.Journal.Fields.Laws.{In-sort_by}

pub same_identity_refl : (i : Identity) → same_identity i i ≡ true
unfolding same_identity
same_identity_refl i =
    ground (arith, eq_bytes_refl i.record_type, eq_bytes_refl i.data_subject, eq_bytes_refl i.key)

-- Identities are compared by their three parts.
pub same_identity_eq : (i j : Identity) → same_identity i j ≡ true → i ≡ j
unfolding same_identity
same_identity_eq i j h = ground (
  arith,
  eq_bytes_iff i.record_type j.record_type,
  eq_bytes_iff i.data_subject j.data_subject,
  eq_bytes_iff i.key j.key,
)

distinct :
    (i k j : Identity)
    → same_identity k i ≡ false
    → same_identity i j ≡ true
    → same_identity k j ≡ true
    → ⊥
distinct i k j e d c =
    let f = same_identity_eq k j c in
    let g = same_identity_eq i j d in
    let t : same_identity k i ≡ true = rw (f, g) (same_identity_refl j) in cc

module _ {Row : Type 0} where
  pub find_row-put_row :
      (rows : List (Identity × Row)) (i j : Identity) (r : Row)
      → find_row (put_row rows i r) j ≡ (if same_identity i j then some r else find_row rows j)
  unfolding find_row put_row
  find_row-put_row [] i j r = refl
  find_row-put_row ((k, q) ∷ rows) i j r = elim (Bool-cases (same_identity k i)) [
    | inl e ↦ rw (same_identity_eq k i e, same_identity_refl i, find_row) (ground arith)
    | inr e ↦ elim (Bool-cases (same_identity k j)) [
      | inl e2 ↦ elim (Bool-cases (same_identity i j)) [
        | inl e3 ↦ absurd (distinct i k j e e3 e2)
        | inr e3 ↦ rw (e, e2, e3, find_row) refl
      ]
      | inr e2 ↦ rw (e, find_row, e2) (find_row-put_row rows i j r)
    ]
  ]

-- One more event.
pub fold_from-append :
    (rename : Rename) (rows : Rows) (es : List FoldEvent) (e : FoldEvent)
    → fold_from rename rows (es ++ e ∷ []) ≡ (
        let before = fold_from rename rows es in
        put_row before e.id (step_row rename e (or_zero (find_row before e.id))))
unfolding fold_from
fold_from-append rename rows [] e = refl
fold_from-append rename rows (d ∷ es) e =
    fold_from-append rename (put_row rows d.id (step_row rename d (or_zero (find_row rows d.id))))
      es e

find-copy_renamed :
    (to : Bytes → Bytes) (source : Fields) (ks : List Bytes) (out : Fields) (k : Bytes)
    → ((j : Bytes) → to j ≡ j)
    → find (copy_renamed to source ks out) k
      ≡ (if any (eq_bytes k) ks then some (get source k) else find out k)
unfolding copy_renamed
find-copy_renamed to source [] out k h = refl
find-copy_renamed to source (j ∷ ks) out k h = ground (
  arith,
  h j,
  eq_bytes_iff k j,
  eq_bytes_iff j k,
  find-put out (to j) k (get source j),
  find-copy_renamed to source ks (put out (to j) (get source j)) k h,
)

listed_key :
    (to : Bytes → Bytes) (source : Fields) (k : Bytes) (v : RawMessage)
    → find source k ≡ some v
    → any (eq_bytes k) (order_keys to (keys source)) ≡ true
unfolding order_keys
listed_key to source k v e =
    (any_eq_iff k _).1
      ((In-sort_by _ k (keys source)).1 ((In-keys k source).1 (find-In source k v e)))

-- The copy of a created or restored event has every value of the event.
pub get-copy_renamed :
    (to : Bytes → Bytes) (source : Fields) (k : Bytes)
    → ((j : Bytes) → to j ≡ j)
    → get (copy_renamed to source (order_keys to (keys source)) []) k ≡ get source k
unfolding get find
get-copy_renamed to source k h =
    let copied = find-copy_renamed to source (order_keys to (keys source)) [] k h in
    elim (Option-cases (find source k)) [
      | inl e ↦ ground (arith, copied, e)
      | inr (v, e) ↦ ground (arith, copied, e, listed_key to source k v e)
    ]
