-- ===== src/Journal/Apply/Refines.antt =====
-- Writing a whole plan with internal/journal/apply.go keeps the rows the replay of the events.
use glovebox.Prelude.{
  ◌≡◌, ◌≢◌, ◌⊎◌, refl, sym, ap, inl, inr, true, false, List, [], ◌∷◌, ◌++◌, In, map, arith, Bytes,
  eq_bytes, eq_bytes→eq, eq_bytes_refl, Option, none, some, Option-cases, Bool-cases,
  some-injective, ◌∙◌,
}
use mathlib.Core.Path.{subst}
use glovebox.Journal.Fields.{Assoc, find, get, raw_equal}
use glovebox.Journal.Fields.Laws.{IsMap}
use glovebox.Journal.Diff.Types.{
  Kind, created, updated, removed, restored, Current, Event, NormRecord, Input,
}
use glovebox.Journal.Diff.{diff, changes}
use glovebox.Journal.Diff.Events.{Proper, HasRow, Writable, Separate, DistinctKeys, diff-Writable}
use glovebox.Journal.Fold.{Identity, FoldRow, Rename, same_identity, find_row}
use glovebox.Journal.Fold.Rows.{find_row-put_row, same_identity_eq, same_identity_refl}
use glovebox.Journal.Apply.Types.{RecordType, StoredRow, Store, Services}
use glovebox.Journal.Apply.Build.{EventSource, build_event}
use glovebox.Journal.Apply.Write.{
  load_current, current_or_zero, identity, write_event, write_events, write_plan, upsert_current,
  stored_row, confirmed_row, confirm_row,
}
use glovebox.Journal.Apply.Agrees.{
  Agrees, replayed, Consistent, FitsKind, Fits, write_event-Consistent, Kind-cases,
}
use glovebox.Journal.Apply.Rows.{find_row-confirm_row, confirmed_row_kept, read_row}

false_key : (j k : Bytes) → eq_bytes j k ≡ false → j ≡ k → ⊥
false_key j k q z = let t : eq_bytes j k ≡ true = rw z (eq_bytes_refl k) in cc

-- The rows at the start of a write, by key, are maps.
abbrev MapCurrent : Assoc Current → Type 0
MapCurrent cur = (key : Bytes) → IsMap (current_or_zero cur key).fields

module _ (rename : Rename) (s : Services) (t : RecordType) (subject : Bytes)
    (src : EventSource) where
  abbrev at_key : Store → Bytes → Option StoredRow
  at_key st key = find_row st.rows (identity t subject key)

  built-IsMap :
      (prev : Current) (ev : Event)
      → IsMap ev.after
      → IsMap prev.fields
      → IsMap (build_event s t subject src prev ev).next.fields
  unfolding build_event
  built-IsMap prev ev m n = elim (Kind-cases ev.kind) [
    | inl e ↦ rw (e, build_event) m
    | inr (inl e) ↦ rw (e, build_event) m
    | inr (inr (inl e)) ↦ rw (e, build_event) m
    | inr (inr (inr e)) ↦ rw (e, build_event) n
  ]

  -- The row of a key after an event of that key, and of another.
  at_key_same :
      (cur : Assoc Current) (st : Store) (ev : Event)
      → at_key (write_event s t subject src cur st ev) ev.key
        ≡ some (
            stored_row s t subject src st.rows ev
              (build_event s t subject src (current_or_zero cur ev.key) ev).next
              st.next_seq)
  unfolding write_event upsert_current
  at_key_same cur st ev = ground (
    arith,
    find_row-put_row st.rows (identity t subject ev.key) (identity t subject ev.key) (
        stored_row s t subject src st.rows ev
          (build_event s t subject src (current_or_zero cur ev.key) ev).next st.next_seq),
    same_identity_refl (identity t subject ev.key),
  )

  at_key_other :
      (cur : Assoc Current) (st : Store) (ev : Event) (key : Bytes)
      → key ≢ ev.key
      → at_key (write_event s t subject src cur st ev) key ≡ at_key st key
  unfolding write_event upsert_current
  at_key_other cur st ev key ne =
      let id = identity t subject ev.key in
      let other = identity t subject key in
      elim (Bool-cases (same_identity id other)) [
        | inl e ↦ absurd (ne (sym (ap (λ (i : Identity). i.key) (same_identity_eq id other e))))
        | inr e ↦ ground (
          arith,
          e,
          find_row-put_row st.rows id other (
              stored_row s t subject src st.rows ev
                (build_event s t subject src (current_or_zero cur ev.key) ev).next st.next_seq),
        )
      ]

  -- A removal leaves the fields that the row had at the start.
  removed_fields :
      (prev : Current) (ev : Event)
      → ev.kind ≡ removed
      → (build_event s t subject src prev ev).next.fields ≡ prev.fields
  unfolding build_event
  removed_fields prev ev e = ground (arith, e)

  Fits-stored :
      (k : Kind) (prev : Current) (ev : Event) (stored : Option StoredRow) (r : StoredRow)
      → stored ≡ some r
      → r.fields ≡ prev.fields
      → (old : Option StoredRow) → FitsKind k prev ev old
      → FitsKind k prev ev stored
  Fits-stored created prev ev stored r e g old f = tt
  Fits-stored restored prev ev stored r e g old f = tt
  Fits-stored updated prev ev stored r e g old f = (r, e, g, f.3)
  Fits-stored removed prev ev stored r e g old f = (r, e, g)

  -- An event that fits before another one still fits after it.
  Fits-write_event :
      (cur : Assoc Current) (st : Store) (e f : Event)
      → (e.kind ≡ removed) ⊎ (f.key ≢ e.key)
      → Fits (current_or_zero cur f.key) f (at_key st f.key)
      → Fits (current_or_zero cur f.key) f (at_key (write_event s t subject src cur st e) f.key)
  unfolding stored_row
  Fits-write_event cur st e f h fits =
      let after = write_event s t subject src cur st e in
      let prev = current_or_zero cur f.key in
      let other = λ (ne : f.key ≢ e.key).
        subst (λ x. Fits prev f x) (sym (at_key_other cur st e f.key ne)) fits in
      elim h [
        | inr ne ↦ other ne
        | inl gone ↦ elim (Bool-cases (eq_bytes f.key e.key)) [
          | inr q ↦ other (λ z. false_key f.key e.key q z)
          | inl q ↦
              let z = sym (eq_bytes→eq f.key e.key q) in
              let row =
                stored_row s t subject src st.rows e
                  (build_event s t subject src (current_or_zero cur e.key) e).next st.next_seq in
              (
                fits.0,
                Fits-stored f.kind prev f (at_key after f.key) row
                    (subst (λ k. at_key after k ≡ some row) z (at_key_same cur st e))
                    (subst (λ k. row.fields ≡ (current_or_zero cur k).fields) z
                      (removed_fields (current_or_zero cur e.key) e gone))
                    (at_key st f.key) fits.1,
              )
        ]
      ]

  write_events-Consistent :
      (cur : Assoc Current) (st : Store) (evs : List Event)
      → ((k : Bytes) → rename t.name t.schema_version k ≡ k)
      → MapCurrent cur
      → Separate evs
      → ((e : Event) → In e evs → Fits (current_or_zero cur e.key) e (at_key st e.key))
      → Consistent rename st
      → Consistent rename (write_events s t subject src cur st evs)
  unfolding write_events
  write_events-Consistent cur st [] h maps sep fits inv = inv
  write_events-Consistent cur st (e ∷ evs) h maps sep fits inv =
      let here = fits e (inl refl) in
      write_events-Consistent cur (write_event s t subject src cur st e) evs h maps sep.1
        (λ f m.
          Fits-write_event cur st e f
            (elim sep.0 [ inl gone ↦ inl gone | inr apart ↦ inr (apart f m) ]) (fits f (inr m)))
        (write_event-Consistent rename s t subject src cur st e h here
          (built-IsMap (current_or_zero cur e.key) e here.0 (maps e.key)) inv)

  read_maps : (st : Store) → Consistent rename st → MapCurrent (load_current st.rows t.name subject)
  read_maps st inv key = elim (read_row t subject st key) [
    | inl (e, f, z) ↦ subst (λ (c : Current). IsMap c.fields) (sym z) tt
    | inr (r, e, f, z) ↦
        subst (λ (c : Current). IsMap c.fields) (sym z) (inv.1 (identity t subject key) r e)
  ]

  -- A planned event fits the row that was read.
  Writable-Fits :
      (st : Store) (inp : Input) (e : Event)
      → inp.current ≡ load_current st.rows t.name subject
      → Writable inp e
      → Fits (current_or_zero (load_current st.rows t.name subject) e.key) e (at_key st e.key)
  Writable-Fits st inp e c w = (w.0.0, go e.kind w.1)
    where
      go :
          (k : Kind)
          → HasRow inp k e
          → FitsKind k
              (current_or_zero (load_current st.rows t.name subject) e.key)
              e
              (at_key st e.key)
      go created h = tt
      go restored h = tt
      go updated h = elim (read_row t subject st e.key) [
        | inl (a, f, z) ↦ absurd (cc (f, h.1, c))
        | inr (r, a, f, z) ↦
            let same = some-injective (sym h.1 ∙ ap (λ (x : Assoc Current). find x e.key) c ∙ f) in
            (
              r,
              a,
              sym (ap (λ (x : Current). x.fields) z),
              h.2 ∙ ap (λ (x : Current). changes x.fields e.after) (same ∙ sym z),
            )
      ]
      go removed h = elim (read_row t subject st e.key) [
        | inl (a, f, z) ↦ absurd (cc (f, h.1, c))
        | inr (r, a, f, z) ↦ (r, a, sym (ap (λ (x : Current). x.fields) z))
      ]

  Agrees-confirmed :
      (confirms : List Bytes) (i : Identity) (stored : Option StoredRow) (f : Option FoldRow)
      → Agrees stored f
      → Agrees
          (elim stored [ none ↦ none | some r ↦ some (confirmed_row s t subject src confirms i r) ])
          f
  Agrees-confirmed confirms i none f a = a
  Agrees-confirmed confirms i (some r) none a = a
  Agrees-confirmed confirms i (some r) (some f) a =
      let kept = confirmed_row_kept s t subject src confirms i r in
      (
        kept.1 ∙ a.0,
        kept.2 ∙ a.1,
        kept.3 ∙ a.2,
        λ k. subst (λ x. raw_equal (get x k) (get f.fields k) ≡ true) (sym kept.0) (a.3 k),
      )

  -- The rows that a snapshot only confirms.
  confirms-Consistent :
      (st : Store) (confirms : List Bytes)
      → Consistent rename st
      → Consistent rename (record st { rows = map (confirm_row s t subject src confirms) st.rows })
  confirms-Consistent st confirms inv = (
    λ i.
        subst (λ x. Agrees x (find_row (replayed rename st) i))
          (sym (find_row-confirm_row s t subject src confirms st.rows i))
          (Agrees-confirmed confirms i (find_row st.rows i) _ (inv.0 i)),
    λ i r q.
        let found = sym (find_row-confirm_row s t subject src confirms st.rows i) ∙ q in
        elim (Option-cases (find_row st.rows i)) [
          | inl e ↦ absurd (cc (rw e at found))
          | inr (r0, e) ↦
              let same = some-injective (rw e at found) in
              subst IsMap
                (sym (confirmed_row_kept s t subject src confirms i r0).0
                  ∙ ap (λ (x : StoredRow). x.fields) same)
                (inv.1 i r0 e)
        ],
  )

  pub write_plan-Consistent :
      (date_text : Bytes → Option Bytes) (st : Store) (inp : Input)
      → ((k : Bytes) → rename t.name t.schema_version k ≡ k)
      → inp.current ≡ load_current st.rows t.name subject
      → DistinctKeys inp.records
      → ((r : NormRecord) → In r inp.records → Proper r.fields)
      → Consistent rename st
      → Consistent rename
          (write_plan s t subject src (load_current st.rows t.name subject) st (diff date_text inp))
  unfolding write_plan
  write_plan-Consistent date_text st inp h c distinct maps inv =
      let p = diff date_text inp in
      let cur = load_current st.rows t.name subject in
      let planned = diff-Writable date_text inp distinct maps in
      confirms-Consistent (write_events s t subject src cur st (p.events ++ p.removals)) p.confirms
        (write_events-Consistent cur st (p.events ++ p.removals) h (read_maps st inv) planned.0
          (λ e m. Writable-Fits st inp e c (planned.1 e m)) inv)
