-- ===== src/Journal/Fold/Replay.antt =====
-- Replaying what the diff planned: Fold of internal/journal/diff/fold.go over changes of diff.go.
use glovebox.Prelude.{
  ◌≡◌, refl, inl, inr, true, false, List, [], ◌∷◌, arith, any, any_eq_iff, Bytes, eq_bytes,
  eq_bytes_iff, none, some, if◌then◌else◌, Bool-cases, Option-cases,
}
use glovebox.Journal.Fields.{Assoc, Fields, find, put, delete, get, raw_equal, map_keys}
use glovebox.Journal.Fields.Laws.{
  find-put, find-delete, IsMap, raw_equal_refl, raw_equal_euclid, raw_equal_sym, In-sort_by,
  find-In, In-find,
}
use glovebox.Journal.Diff.Types.{Change, updated}
use glovebox.Journal.Diff.{changes}
use glovebox.Journal.Diff.Changes.{find-changes}
use glovebox.Journal.Fold.{
  FoldEvent, FoldRow, Rename, new_value, apply_deletes, apply_sets, apply_changes, order_keys,
  step_row,
}

-- Nothing is renamed: the event was written in the active version.
abbrev Keeps : (Bytes → Bytes) → Type 0
Keeps to = (k : Bytes) → to k ≡ k

find-apply_deletes :
    (to : Bytes → Bytes) (ch : Assoc Change) (ks : List Bytes) (fs : Fields) (k : Bytes)
    → Keeps to
    → find (apply_deletes to ch ks fs) k ≡ (
        if any (eq_bytes k) ks
        then elim (new_value ch k) [ none ↦ none | some _ ↦ find fs k ]
        else find fs k)
unfolding apply_deletes
find-apply_deletes to ch [] fs k h = refl
find-apply_deletes to ch (j ∷ ks) fs k h = ground (
  arith,
  h j,
  eq_bytes_iff k j,
  eq_bytes_iff j k,
  find-delete fs (to j) k,
  find-apply_deletes to ch ks fs k h,
  find-apply_deletes to ch ks (delete fs (to j)) k h,
)

find-apply_sets :
    (to : Bytes → Bytes) (ch : Assoc Change) (ks : List Bytes) (fs : Fields) (k : Bytes)
    → Keeps to
    → find (apply_sets to ch ks fs) k ≡ (
        if any (eq_bytes k) ks
        then elim (new_value ch k) [ none ↦ find fs k | some v ↦ some (some v) ]
        else find fs k)
unfolding apply_sets
find-apply_sets to ch [] fs k h = refl
find-apply_sets to ch (j ∷ ks) fs k h = elim (Option-cases (new_value ch j)) [
  | inl e ↦ ground (arith, e, h j, eq_bytes_iff k j, find-apply_sets to ch ks fs k h)
  | inr (v, e) ↦ ground (
    arith,
    e,
    h j,
    eq_bytes_iff k j,
    eq_bytes_iff j k,
    find-put fs (to j) k (some v),
    find-apply_sets to ch ks (put fs (to j) (some v)) k h,
  )
]

-- The keys that the loops go through are those of the changes.
listed_keys :
    (to : Bytes → Bytes) (ch : Assoc Change) (k : Bytes)
    → (find ch k ≡ none → any (eq_bytes k) (order_keys to (map_keys ch)) ≡ false)
      × ((c : Change) → find ch k ≡ some c → any (eq_bytes k) (order_keys to (map_keys ch)) ≡ true)
unfolding order_keys
listed_keys to ch k =
    let ks = order_keys to (map_keys ch) in
    (
      λ e. elim (Bool-cases (any (eq_bytes k) ks)) [
        | inl a ↦
            let t = In-find ch k ((In-sort_by _ k (map_keys ch)).0 ((any_eq_iff k ks).0 a)) in
            cc (t.1)
        | inr b ↦ b
      ],
      λ c e. (any_eq_iff k ks).1 ((In-sort_by _ k (map_keys ch)).1 (find-In ch k c e)),
    )

get-apply_changes :
    (to : Bytes → Bytes) (ch : Assoc Change) (fs : Fields) (k : Bytes)
    → Keeps to
    → get (apply_changes to ch fs) k ≡ elim (find ch k) [ none ↦ get fs k | some c ↦ c.new ]
unfolding apply_changes get new_value
get-apply_changes to ch fs k h =
    let ks = order_keys to (map_keys ch) in
    let listed = listed_keys to ch k in
    elim (Option-cases (find ch k)) [
      | inl e ↦ ground (
        arith,
        e,
        listed.0 e,
        find-apply_sets to ch ks (apply_deletes to ch ks fs) k h,
        find-apply_deletes to ch ks fs k h,
      )
      | inr (c, e) ↦ ground (
        arith,
        e,
        listed.1 c e,
        find-apply_sets to ch ks (apply_deletes to ch ks fs) k h,
        find-apply_deletes to ch ks fs k h,
      )
    ]

-- The changes from `before` to `after`, applied to fields that agree with `before`.
pub get-changes :
    (to : Bytes → Bytes) (before after fs : Fields) (k : Bytes)
    → Keeps to
    → IsMap before
    → IsMap after
    → raw_equal (get before k) (get fs k) ≡ true
    → raw_equal (get after k) (get (apply_changes to (changes before after) fs) k) ≡ true
unfolding get
get-changes to before after fs k h m n e = ground (
  arith,
  e,
  get-apply_changes to (changes before after) fs k h,
  find-changes before after k m n,
  raw_equal_refl (get after k),
  raw_equal_euclid (get before k) (get after k) (get fs k),
)

-- An updated event that lists the changes from the row's fields to the snapshot's, written in the
-- active version, replays to a live row whose every field equals the snapshot's, nil and empty values
-- taken as equal, with the event's scope and audience.
pub updated_replays :
    (rename : Rename) (e : FoldEvent) (row : FoldRow) (after : Fields)
    → e.kind ≡ updated
    → e.changed ≡ changes row.fields after
    → ((k : Bytes) → rename e.id.record_type e.schema_version k ≡ k)
    → IsMap row.fields
    → IsMap after
    → let out = step_row rename e row in
      (out.removed ≡ false)
      × (out.scope ≡ e.scope)
      × (out.audience ≡ e.audience)
      × ((k : Bytes) → raw_equal (get out.fields k) (get after k) ≡ true)
unfolding step_row
updated_replays rename e row after u c h m n =
    rw (u, step_row, c)
      (
        refl,
        refl,
        refl,
        λ k. raw_equal_sym _ _ (
            get-changes (rename e.id.record_type e.schema_version) row.fields after row.fields k h m
              n (raw_equal_refl (get row.fields k))),
      )
