-- ===== src/Journal/Apply/Judging.antt =====
-- The text that internal/journal/apply.go stores was judged by a scanner.
use glovebox.Prelude.{
  ◌≡◌, ◌⊎◌, refl, sym, ◌∙◌, ap, inl, inr, List, [], ◌∷◌, ◌++◌, In, All, map, Bytes, some,
  Bool-cases, Option-cases, some-injective,
}
use mathlib.Core.Path.{subst}
use glovebox.Journal.Fields.{Assoc, Fields, find}
use glovebox.Journal.Diff.Types.{updated, Current, Event, NormRecord, ScanMap, Input}
use glovebox.Journal.Diff.{changes, diff}
use glovebox.Journal.Diff.Events.{Proper, HasRow, Writable, DistinctKeys, diff-Writable}
use glovebox.Journal.Fold.{Identity, same_identity, find_row}
use glovebox.Journal.Fold.Rows.{find_row-put_row, same_identity_eq}
use glovebox.Journal.Apply.Types.{RecordType, Normalized, StoredRow, Store, empty_store, Services}
use glovebox.Journal.Apply.Build.{EventSource, build_event}
use glovebox.Journal.Apply.Write.{
  load_current, current_or_zero, identity, write_event, write_events, write_plan, upsert_current,
  stored_row, confirmed_row, confirm_row,
}
use glovebox.Journal.Apply.Serve.{
  Request, Call, apply_call, confirm_call, discard_call, serve_all, plan_of, diff_input, source_of,
}
use glovebox.Journal.Apply.Rows.{find_row-confirm_row, confirmed_row_kept, read_row}
use glovebox.Journal.Apply.Sequences.{AllowedCall, written_plan, serve_all_keeps}
use glovebox.Journal.Apply.Scans.{Judged, JudgedMaps, Gives, build_event-Judged}

JudgedMaps-empty : (may : Bytes → Bytes → Bytes → Type 0) (t : RecordType) → JudgedMaps may t [] []
unfolding find
JudgedMaps-empty may t = (tt, tt, λ k v e text. cc)

-- A valid snapshot of an active type.
abbrev pub ValidOf : (Bytes → RecordType) → Services → Normalized → Type 0
ValidOf type_of s n =
    DistinctKeys n.records
    × ((r : NormRecord) → In r n.records → Proper r.fields)
    × (n.record_type ≡ type_of n.record_type.name)

module _ (may : Bytes → Bytes → Bytes → Type 0) (type_of : Bytes → RecordType) where
  -- Every stored row is a map of fields, and its text was judged.
  abbrev JudgedRow : Identity → StoredRow → Type 0
  JudgedRow i r = JudgedMaps may (type_of i.record_type) r.fields r.scan

  abbrev JudgedRows : Store → Type 0
  JudgedRows st = (i : Identity) (r : StoredRow) → find_row st.rows i ≡ some r → JudgedRow i r

  -- A valid snapshot of an active type, and a configuration whose verdicts may be given.
  abbrev Judging : Services → Normalized → Type 0
  Judging s n = ValidOf type_of s n × Gives s may

  moved :
      (t : RecordType) {f g : Fields} {a b : ScanMap}
      → f ≡ g
      → a ≡ b
      → JudgedMaps may t g b
      → JudgedMaps may t f a
  moved t {f} {g} {a} {b} p q h =
      subst (λ x. JudgedMaps may t x a) (sym p) (subst (λ x. JudgedMaps may t g x) (sym q) h)

  module _ (s : Services) (t : RecordType) (subject : Bytes) (src : EventSource) where
    write_event-JudgedRows :
        (cur : Assoc Current) (st : Store) (ev : Event)
        → (let next = (build_event s t subject src (current_or_zero cur ev.key) ev).next in
            JudgedMaps may (type_of t.name) next.fields next.scan)
        → JudgedRows st
        → JudgedRows (write_event s t subject src cur st ev)
    unfolding write_event upsert_current stored_row
    write_event-JudgedRows cur st ev new inv i r q =
        let next = (build_event s t subject src (current_or_zero cur ev.key) ev).next in
        let id = identity t subject ev.key in
        let row = stored_row s t subject src st.rows ev next st.next_seq in
        let found = sym (find_row-put_row st.rows id i row) ∙ q in
        elim (Bool-cases (same_identity id i)) [
          | inr e ↦ inv i r (rw e at found)
          | inl e ↦
              subst (λ (x : Identity). JudgedRow x r) (same_identity_eq id i e)
                (subst (λ (x : StoredRow). JudgedRow id x) {x = row} {y = r}
                  (some-injective (rw e at found)) new)
        ]

    write_events-JudgedRows :
        (cur : Assoc Current) (st : Store) (evs : List Event)
        → ((ev : Event)
            → In ev evs
            → let next = (build_event s t subject src (current_or_zero cur ev.key) ev).next in
              JudgedMaps may (type_of t.name) next.fields next.scan)
        → JudgedRows st
        → JudgedRows (write_events s t subject src cur st evs)
    unfolding write_events
    write_events-JudgedRows cur st [] new inv = inv
    write_events-JudgedRows cur st (e ∷ evs) new inv =
        write_events-JudgedRows cur (write_event s t subject src cur st e) evs
          (λ ev m. new ev (inr m)) (write_event-JudgedRows cur st e (new e (inl refl)) inv)

    -- An update lists the changes to the row that was read.
    update_changes :
        (inp : Input) (ev : Event)
        → Writable inp ev
        → ev.kind ≡ updated
        → ev.changed ≡ changes (current_or_zero inp.current ev.key).fields ev.after
    unfolding current_or_zero
    update_changes inp ev w e =
        let h = subst (λ k. HasRow inp k ev) e w.1 in
        let same : current_or_zero inp.current ev.key ≡ h.0 = rw (current_or_zero, h.1) refl in
        h.2 ∙ ap (λ (c : Current). changes c.fields ev.after) (sym same)

    read_JudgedMaps :
        (st : Store) (key : Bytes)
        → JudgedRows st
        → let c = current_or_zero (load_current st.rows t.name subject) key in
          JudgedMaps may (type_of t.name) c.fields c.scan
    read_JudgedMaps st key inv = elim (read_row t subject st key) [
      | inl (e, f, z) ↦
          subst (λ (c : Current). JudgedMaps may (type_of t.name) c.fields c.scan) (sym z)
            (JudgedMaps-empty may (type_of t.name))
      | inr (r, e, f, z) ↦
          subst (λ (c : Current). JudgedMaps may (type_of t.name) c.fields c.scan) (sym z)
            (inv (identity t subject key) r e)
    ]

    -- The same, by the type of this snapshot.
    read_by :
        (st : Store) (key : Bytes)
        → t ≡ type_of t.name
        → JudgedRows st
        → let c = current_or_zero (load_current st.rows t.name subject) key in
          JudgedMaps may t c.fields c.scan
    read_by st key active inv =
        let c = current_or_zero (load_current st.rows t.name subject) key in
        subst (λ (x : RecordType). JudgedMaps may x c.fields c.scan) (sym active)
          (read_JudgedMaps st key inv)

    confirms-JudgedRows :
        (st : Store) (confirms : List Bytes)
        → JudgedRows st
        → JudgedRows (record st { rows = map (confirm_row s t subject src confirms) st.rows })
    confirms-JudgedRows st confirms inv i r q =
        let found = sym (find_row-confirm_row s t subject src confirms st.rows i) ∙ q in
        elim (Option-cases (find_row st.rows i)) [
          | inl e ↦ absurd (cc (rw e at found))
          | inr (r0, e) ↦
              let same = some-injective (rw e at found) in
              let kept = confirmed_row_kept s t subject src confirms i r0 in
              subst (λ (x : StoredRow). JudgedRow i x)
                {x = confirmed_row s t subject src confirms i r0} {y = r} same
                (moved (type_of i.record_type) kept.0 kept.4 (inv i r0 e))
        ]

  written_plan-JudgedRows :
      (s : Services) (st : Store) (n : Normalized) (req : Request)
      → Judging s n
      → JudgedRows st
      → JudgedRows (written_plan s st n req)
  unfolding plan_of write_plan
  written_plan-JudgedRows s st n req (ok, gives) inv =
      let t = n.record_type in
      let inp = diff_input s st n in
      let src = source_of s n req in
      let p = diff s.date_text inp in
      let cur = load_current st.rows t.name n.subject in
      let planned = diff-Writable s.date_text inp ok.0 ok.1 in
      let judged = λ (ev : Event) (m : In ev (p.events ++ p.removals)).
        let next = (build_event s t n.subject src (current_or_zero cur ev.key) ev).next in
        subst (λ (x : RecordType). JudgedMaps may x next.fields next.scan) ok.2
          (build_event-Judged s may gives t n.subject src (current_or_zero cur ev.key) ev
            (read_by s t n.subject src st ev.key ok.2 inv) (planned.1 ev m).0.0 (planned.1 ev m).0.1
            (update_changes s t n.subject src inp ev (planned.1 ev m))) in
      confirms-JudgedRows s t n.subject src
        (write_events s t n.subject src cur st (p.events ++ p.removals)) p.confirms
        (write_events-JudgedRows s t n.subject src cur st (p.events ++ p.removals) judged inv)

-- A scanner of the version gave the verdict on the text, in the configuration of one of the calls.
abbrev GaveBy : Services → Bytes → Bytes → Bytes → Type 0
GaveBy s version text verdict =
    (s.scanner_version ≡ version)
    × ((key : Bytes) × (field : Bytes) × (s.verdict key field text ≡ verdict))

abbrev pub Gave : List Call → Bytes → Bytes → Bytes → Type 0
Gave [] version text verdict = ⊥
Gave (apply_call s writer n payload ∷ cs) version text verdict =
    GaveBy s version text verdict ⊎ Gave cs version text verdict
Gave (confirm_call s may_write id ∷ cs) version text verdict =
    GaveBy s version text verdict ⊎ Gave cs version text verdict
Gave (discard_call id ∷ cs) version text verdict = Gave cs version text verdict

-- The calls of a sequence give what the sequence gave.
calls-Judging :
    (may : Bytes → Bytes → Bytes → Type 0) (type_of : Bytes → RecordType) (cs : List Call)
    → ((version text verdict : Bytes) → Gave cs version text verdict → may version text verdict)
    → All (AllowedCall (ValidOf type_of)) cs
    → All (AllowedCall (Judging may type_of)) cs
calls-Judging may type_of [] incl allowed = tt
calls-Judging may type_of (apply_call s writer n payload ∷ cs) incl allowed = (
  (allowed.0, λ key field text. incl _ text _ (inl (refl, (key, field, refl)))),
  calls-Judging may type_of cs (λ v x w g. incl v x w (inr g)) allowed.1,
)
calls-Judging may type_of (confirm_call s may_write id ∷ cs) incl allowed = (
  λ payload at n v.
      (allowed.0 payload at n v, λ key field text. incl _ text _ (inl (refl, (key, field, refl)))),
  calls-Judging may type_of cs (λ v x w g. incl v x w (inr g)) allowed.1,
)
calls-Judging may type_of (discard_call id ∷ cs) incl allowed =
    (tt, calls-Judging may type_of cs incl allowed.1)

-- Whatever snapshots are sent, confirmed and discarded from an empty journal: every text value of every
-- stored row has an entry in the scan map of the row, and the verdict there is one that the scanner of
-- the version named with it gave on the value in one of the calls. The snapshots are valid and of the
-- active types.
pub serve_all-Judged :
    (type_of : Bytes → RecordType) (cs : List Call) (i : Identity) (r : StoredRow)
    → All (AllowedCall (ValidOf type_of)) cs
    → find_row (serve_all empty_store cs).rows i ≡ some r
    → Judged (Gave cs) (type_of i.record_type) r.fields r.scan
unfolding find_row
serve_all-Judged type_of cs i r allowed found =
    (serve_all_keeps (JudgedRows (Gave cs) type_of) (Judging (Gave cs) type_of) (λ st row f p. p)
      (λ st id status stats r f h p. p) (λ st type scope at p. p)
      (written_plan-JudgedRows (Gave cs) type_of) empty_store cs
      (calls-Judging (Gave cs) type_of cs (λ v x w g. g) allowed) (λ i r q. absurd (cc q)) i r
      found).2
