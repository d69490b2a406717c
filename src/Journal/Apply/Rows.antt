-- ===== src/Journal/Apply/Rows.antt =====
-- Reading the rows of a subject back, and the rows after the other writes of internal/journal/apply.go.
use glovebox.Prelude.{
  ◌≡◌, ◌⊎◌, refl, inl, inr, List, [], ◌∷◌, map, arith, Bytes, Option, none, some, Option-cases,
  Bool-cases,
}
use glovebox.Journal.Fields.{find}
use glovebox.Journal.Fold.{Identity, same_identity, find_row}
use glovebox.Journal.Fold.Rows.{same_identity_eq, same_identity_refl}
use glovebox.Journal.Diff.Types.{Current}
use glovebox.Journal.Apply.Types.{RecordType, StoredRow, Store, Services}
use glovebox.Journal.Apply.Build.{EventSource, zero_current}
use glovebox.Journal.Apply.Write.{
  load_current, to_current, current_or_zero, identity, confirm_row, confirmed_row,
}

abbrev pub current_of : Option StoredRow → Option Current
current_of none = none
current_of (some r) = some (to_current r)

-- The rows that are read are the ones with the identity.
pub find-load_current :
    (rows : List (Identity × StoredRow)) (t : RecordType) (subject key : Bytes)
    → find (load_current rows t.name subject) key
      ≡ current_of (find_row rows (identity t subject key))
unfolding find load_current find_row same_identity
find-load_current [] t subject key = refl
find-load_current ((i, r) ∷ rows) t subject key =
    ground (arith, find-load_current rows t subject key)

-- What was read of a row that is stored.
pub read_row :
    (t : RecordType) (subject : Bytes) (st : Store) (key : Bytes)
    → let cur = load_current st.rows t.name subject in
      ((find_row st.rows (identity t subject key) ≡ none)
        × (find cur key ≡ none)
        × (current_or_zero cur key ≡ zero_current))
      ⊎ ((r : StoredRow) × (find_row st.rows (identity t subject key) ≡ some r)
          × (find cur key ≡ some (to_current r))
          × (current_or_zero cur key ≡ to_current r))
unfolding current_or_zero
read_row t subject st key =
    let read = find-load_current st.rows t subject key in
    elim (Option-cases (find_row st.rows (identity t subject key))) [
      | inl e ↦
          let none_read = rw e at read in inl (e, none_read, rw (none_read, current_or_zero) refl)
      | inr (r, e) ↦
          let row_read = rw e at read in inr (r, e, row_read, rw (row_read, current_or_zero) refl)
    ]

module _ (s : Services) (t : RecordType) (subject : Bytes) (src : EventSource) where
  -- Confirming rows adds none and takes none away.
  pub find_row-confirm_row :
      (confirms : List Bytes) (rows : List (Identity × StoredRow)) (i : Identity)
      → find_row (map (confirm_row s t subject src confirms) rows) i ≡ elim (find_row rows i) [
        | none ↦ none
        | some r ↦ some (confirmed_row s t subject src confirms i r)
      ]
  unfolding find_row
  find_row-confirm_row confirms [] i = refl
  find_row-confirm_row confirms ((j, r) ∷ rows) i = elim (Bool-cases (same_identity j i)) [
    | inl e ↦ rw (same_identity_eq j i e, same_identity_refl i, find_row) refl
    | inr e ↦ rw (e, find_row) (find_row-confirm_row confirms rows i)
  ]

  -- What confirming leaves alone.
  pub confirmed_row_kept :
      (confirms : List Bytes) (i : Identity) (r : StoredRow)
      → let r' = confirmed_row s t subject src confirms i r in
        (r'.fields ≡ r.fields)
        × (r'.scope ≡ r.scope)
        × (r'.audience ≡ r.audience)
        × (r'.removed ≡ r.removed)
        × (r'.scan ≡ r.scan)
  unfolding confirmed_row
  confirmed_row_kept confirms i r = ground arith
