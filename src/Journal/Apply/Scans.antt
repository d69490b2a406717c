-- ===== src/Journal/Apply/Scans.antt =====
-- The verdicts that buildEvent of internal/journal/apply.go leaves on the text of a row.
use glovebox.Prelude.{
  ◌≡◌, ◌⊎◌, refl, inl, inr, true, [], ◌∷◌, arith, Bytes, eq_bytes_iff, none, some, if◌then◌else◌,
  Bool-cases, Option-cases,
}
use mathlib.Core.Path.{subst}
use glovebox.Journal.Names.{RawMessage}
use glovebox.Journal.Fields.{Assoc, Fields, find, put, delete, get, raw_equal, or_empty}
use glovebox.Journal.Fields.Laws.{
  IsMap, find-put, find-delete, put-IsMap, delete-IsMap, raw_equal_same,
}
use glovebox.Journal.Diff.Types.{updated, Current, Change, Event, ScanEntry, ScanMap}
use glovebox.Journal.Diff.{changes}
use glovebox.Journal.Diff.Events.{Present}
use glovebox.Journal.Diff.Changes.{find-changes, changes-IsMap}
use glovebox.Journal.Apply.Types.{RecordType, is_text, Services}
use glovebox.Journal.Apply.Build.{
  EventSource, scan_new, fresh_entry, scan_fields, keep_entries, rescan_changes, build_event,
}
use glovebox.Journal.Apply.Agrees.{Kind-cases}

module _ (s : Services) (key : Bytes) where
  find-scan_fields :
      (t : RecordType) (after : Fields) (out : ScanMap) (k : Bytes)
      → IsMap after
      → find (scan_fields s key t after out) k ≡ elim (find after k) [
        | none ↦ find out k
        | some v ↦ if is_text t k then some (fresh_entry s key k v) else find out k
      ]
  unfolding scan_fields find
  find-scan_fields t [] out k m = refl
  find-scan_fields t ((f, v) ∷ after) out k m = ground (
    arith,
    m.0,
    eq_bytes_iff f k,
    find-put out f k (fresh_entry s key f v),
    find-scan_fields t after out k m.1,
    find-scan_fields t after (put out f (fresh_entry s key f v)) k m.1,
  )

  find-keep_entries :
      (after : Fields) (scan out : ScanMap) (k : Bytes)
      → IsMap scan
      → find (keep_entries s after scan out) k ≡ elim (find scan k) [
        | none ↦ find out k
        | some e ↦ elim (find after k) [ none ↦ find out k | some _ ↦ some e ]
      ]
  unfolding keep_entries find
  find-keep_entries after [] out k m = refl
  find-keep_entries after ((f, e) ∷ scan) out k m = ground (
    arith,
    m.0,
    eq_bytes_iff f k,
    find-put out f k e,
    find-keep_entries after scan out k m.1,
    find-keep_entries after scan (put out f e) k m.1,
  )

  find-rescan_changes :
      (t : RecordType) (ch : Assoc Change) (out : ScanMap) (k : Bytes)
      → IsMap ch
      → find (rescan_changes s key t ch out) k ≡ elim (find ch k) [
        | none ↦ find out k
        | some c ↦
            if is_text t k
            then elim c.new [ none ↦ none | some _ ↦ some (fresh_entry s key k c.new) ]
            else find out k
      ]
  unfolding rescan_changes find
  find-rescan_changes t [] out k m = refl
  find-rescan_changes t ((f, c) ∷ ch) out k m = ground (
    arith,
    m.0,
    eq_bytes_iff f k,
    find-put out f k (fresh_entry s key f c.new),
    find-delete out f k,
    find-rescan_changes t ch out k m.1,
    find-rescan_changes t ch (put out f (fresh_entry s key f c.new)) k m.1,
    find-rescan_changes t ch (delete out f) k m.1,
  )

  scan_fields-IsMap :
      (t : RecordType) (after : Fields) (out : ScanMap)
      → IsMap out
      → IsMap (scan_fields s key t after out)
  unfolding scan_fields
  scan_fields-IsMap t [] out h = h
  scan_fields-IsMap t ((f, v) ∷ after) out h = elim (Bool-cases (is_text t f)) [
    | inl e ↦ rw (scan_fields, e) (scan_fields-IsMap t after _ (put-IsMap out f _ h))
    | inr e ↦ rw (scan_fields, e) (scan_fields-IsMap t after out h)
  ]

  keep_entries-IsMap :
      (after : Fields) (scan out : ScanMap) → IsMap out → IsMap (keep_entries s after scan out)
  unfolding keep_entries
  keep_entries-IsMap after [] out h = h
  keep_entries-IsMap after ((f, x) ∷ scan) out h = elim (Option-cases (find after f)) [
    | inl e ↦ rw (keep_entries, e) (keep_entries-IsMap after scan out h)
    | inr (v, e) ↦ rw (keep_entries, e) (keep_entries-IsMap after scan _ (put-IsMap out f x h))
  ]

  rescan_changes-IsMap :
      (t : RecordType) (ch : Assoc Change) (out : ScanMap)
      → IsMap out
      → IsMap (rescan_changes s key t ch out)
  unfolding rescan_changes
  rescan_changes-IsMap t [] out h = h
  rescan_changes-IsMap t ((f, c) ∷ ch) out h = elim (Bool-cases (is_text t f)) [
    | inr e ↦ rw (rescan_changes, e) (rescan_changes-IsMap t ch out h)
    | inl e ↦ elim (Option-cases c.new) [
      | inl n ↦ rw (rescan_changes, e, n) (rescan_changes-IsMap t ch _ (delete-IsMap out f h))
      | inr (v, n) ↦ rw (rescan_changes, e, n) (rescan_changes-IsMap t ch _ (put-IsMap out f _ h))
    ]
  ]

-- Every text value has an entry, with a verdict that the scanner of the version named there may have
-- given on it.
abbrev pub Judged : (Bytes → Bytes → Bytes → Type 0) → RecordType → Fields → ScanMap → Type 0
Judged may t fields scan =
    (k : Bytes) (v : RawMessage)
    → find fields k ≡ some v
    → is_text t k ≡ true
    → (e : ScanEntry) × (find scan k ≡ some e) × may e.scanner_version (or_empty v) e.verdict

abbrev pub JudgedMaps : (Bytes → Bytes → Bytes → Type 0) → RecordType → Fields → ScanMap → Type 0
JudgedMaps may t fields scan = IsMap fields × IsMap scan × Judged may t fields scan

-- The verdicts of a configuration are among those that may be given.
abbrev pub Gives : Services → (Bytes → Bytes → Bytes → Type 0) → Type 0
Gives s may = (key field text : Bytes) → may s.scanner_version text (s.verdict key field text)

-- What the changes do not list has a value equal to the old one.
listed_or_same :
    (before after : Fields) (k : Bytes) (v : RawMessage)
    → IsMap before
    → IsMap after
    → find after k ≡ some v
    → ((c : Change) × (find (changes before after) k ≡ some c) × (c.new ≡ v))
      ⊎ ((find (changes before after) k ≡ none)
          × ((u : RawMessage) × (find before k ≡ some u) × (or_empty u ≡ or_empty v)))
unfolding get
listed_or_same before after k v m n e =
    let listed = find-changes before after k m n in
    elim (Option-cases (find before k)) [
      | inl b ↦ inl (record { old = none; new = v }, ground (arith, listed, b, e), refl)
      | inr (u, b) ↦ elim (Bool-cases (raw_equal u v)) [
        | inl q ↦ inr (ground (arith, listed, b, e, q), (u, b, raw_equal_same u v q))
        | inr q ↦ inl (record { old = u; new = v }, ground (arith, listed, b, e, q), refl)
      ]
    ]

module _ (s : Services) (may : Bytes → Bytes → Bytes → Type 0) (gives : Gives s may)
    (t : RecordType) where
  scan_fields-Judged :
      (key : Bytes) (after : Fields)
      → IsMap after
      → Judged may t after (scan_fields s key t after [])
  unfolding scan_new
  scan_fields-Judged key after m k v e text = (
    fresh_entry s key k v,
    ground (arith, e, text, find-scan_fields s key t after [] k m),
    gives key k (or_empty v),
  )

  rescan_changes-Judged :
      (key : Bytes) (before after : Fields) (scan : ScanMap)
      → JudgedMaps may t before scan
      → IsMap after
      → Present after
      → Judged may t after
          (rescan_changes s key t (changes before after) (keep_entries s after scan []))
  unfolding scan_new
  rescan_changes-Judged key before after scan old m present k v e text =
      let ch = changes before after in
      let out =
        find-rescan_changes s key t ch (keep_entries s after scan []) k
          (changes-IsMap before after) in
      elim (listed_or_same before after k v old.0 m e) [
        | inl (c, f, q) ↦ elim (Option-cases v) [
          | inl n ↦ absurd (present k v e n)
          | inr (w, n) ↦ (
            fresh_entry s key k c.new,
            ground (arith, out, f, text, q, n),
            subst (λ x. may s.scanner_version (or_empty x) (s.verdict key k (or_empty c.new))) q
                (gives key k (or_empty c.new)),
          )
        ]
        | inr (f, (u, b, q)) ↦
            let entry = old.2 k u b text in
            (
              entry.0,
              ground (arith, out, f, e, entry.1, find-keep_entries s key after scan [] k old.1),
              subst (λ x. may (entry.0).scanner_version x (entry.0).verdict) q entry.2,
            )
      ]

  -- The row after an event: every text value that it holds was judged.
  pub build_event-Judged :
      (subject : Bytes) (src : EventSource) (prev : Current) (ev : Event)
      → JudgedMaps may t prev.fields prev.scan
      → IsMap ev.after
      → Present ev.after
      → (ev.kind ≡ updated → ev.changed ≡ changes prev.fields ev.after)
      → let next = (build_event s t subject src prev ev).next in
        JudgedMaps may t next.fields next.scan
  unfolding build_event
  build_event-Judged subject src prev ev old m present ch =
      let scan = scan_fields s ev.key t ev.after [] in
      let fresh : JudgedMaps may t ev.after scan =
        (m, scan_fields-IsMap s ev.key t ev.after [] tt, scan_fields-Judged ev.key ev.after m) in
      elim (Kind-cases ev.kind) [
        | inl e ↦ rw (build_event, e) fresh
        | inr (inl e) ↦ rw (build_event, e) fresh
        | inr (inr (inl e)) ↦
            rw (build_event, e, ch e)
              (
                m,
                rescan_changes-IsMap s ev.key t _ _
                    (keep_entries-IsMap s ev.key ev.after prev.scan [] tt),
                rescan_changes-Judged ev.key prev.fields ev.after prev.scan old m present,
              )
        | inr (inr (inr e)) ↦ rw (build_event, e) old
      ]
