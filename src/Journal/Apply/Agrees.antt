-- ===== src/Journal/Apply/Agrees.antt =====
-- One event that internal/journal/apply.go writes, against its replay by internal/journal/diff/fold.go.
use glovebox.Prelude.{
  ℕ, ◌≡◌, ◌⊎◌, refl, sym, inl, inr, Bool, true, false, List, [], ◌∷◌, ◌++◌, map, arith, Bytes,
  Option, none, some, if◌then◌else◌, Bool-cases,
}
use mathlib.Core.Path.{subst}
use mathlib.Core.List.{map-append}
use glovebox.Journal.Names.{RawMessage}
use glovebox.Journal.Fields.{Assoc, Fields, get, raw_equal}
use glovebox.Journal.Fields.Laws.{IsMap, raw_equal_refl}
use glovebox.Journal.Diff.Types.{Kind, created, updated, removed, restored, Current, Event}
use glovebox.Journal.Diff.{changes}
use glovebox.Journal.Fold.{
  Identity, FoldEvent, FoldRow, Rename, step_row, or_zero, find_row, put_row, fold, same_identity,
}
use glovebox.Journal.Fold.Rows.{get-copy_renamed, find_row-put_row, fold_from-append}
use glovebox.Journal.Fold.Replay.{get-changes}
use glovebox.Journal.Apply.Types.{RecordType, EventRow, StoredRow, Store, Services}
use glovebox.Journal.Apply.Build.{EventSource, NextRow, build_event}
use glovebox.Journal.Apply.Write.{
  event_row, stored_row, write_event, upsert_current, current_or_zero, identity,
}

-- What the replay reads of a stored event.
abbrev pub fold_event : EventRow → FoldEvent
fold_event e = record {
  id = e.id;
  kind = e.kind;
  schema_version = e.schema_version;
  scope = e.scope;
  audience = e.audience;
  fields = e.columns.fields;
  changed = e.columns.changed;
}

-- A stored row and a replayed one have one scope, one audience and one set of live values.
abbrev pub Agrees : Option StoredRow → Option FoldRow → Type 0
Agrees none none = Unit {0}
Agrees none (some f) = ⊥
Agrees (some r) none = ⊥
Agrees (some r) (some f) =
    (r.scope ≡ f.scope)
    × (r.audience ≡ f.audience)
    × (r.removed ≡ f.removed)
    × ((k : Bytes) → raw_equal (get r.fields k) (get f.fields k) ≡ true)

-- Every row is the replay of the events, and every stored row a map.
abbrev pub replayed : Rename → Store → List (Identity × FoldRow)
replayed rename st = fold rename (map fold_event st.events)

abbrev pub Consistent : Rename → Store → Type 0
Consistent rename st =
    ((i : Identity) → Agrees (find_row st.rows i) (find_row (replayed rename st) i))
    × ((i : Identity) (r : StoredRow) → find_row st.rows i ≡ some r → IsMap r.fields)

-- A planned event fits the row that it was planned against, and which is stored still.
abbrev pub FitsKind : Kind → Current → Event → Option StoredRow → Type 0
FitsKind created prev ev stored = Unit {0}
FitsKind restored prev ev stored = Unit {0}
FitsKind updated prev ev stored =
    (r : StoredRow) × (stored ≡ some r)
    × (r.fields ≡ prev.fields)
    × (ev.changed ≡ changes prev.fields ev.after)
FitsKind removed prev ev stored = (r : StoredRow) × (stored ≡ some r) × (r.fields ≡ prev.fields)

abbrev pub Fits : Current → Event → Option StoredRow → Type 0
Fits prev ev stored = IsMap ev.after × FitsKind ev.kind prev ev stored

pub Kind-cases : (k : Kind) → (k ≡ created) ⊎ ((k ≡ restored) ⊎ ((k ≡ updated) ⊎ (k ≡ removed)))
Kind-cases created = inl refl
Kind-cases restored = inr (inl refl)
Kind-cases updated = inr (inr (inl refl))
Kind-cases removed = inr (inr (inr refl))

raw_equal_same : (a b : RawMessage) → a ≡ b → raw_equal a b ≡ true
raw_equal_same a b e = rw e (raw_equal_refl b)

Agrees-fields :
    (stored : Option StoredRow) (f : Option FoldRow) (r : StoredRow) (fields : Fields) (k : Bytes)
    → stored ≡ some r
    → r.fields ≡ fields
    → Agrees stored f
    → raw_equal (get fields k) (get (or_zero f).fields k) ≡ true
Agrees-fields stored none r fields k e g a = absurd (subst (λ x. Agrees x none) e a)
Agrees-fields stored (some f) r fields k e g a =
    subst (λ x. raw_equal (get x k) (get f.fields k) ≡ true) g
      ((subst (λ x. Agrees x (some f)) e a).3 k)

same_row :
    (here : Bool) (found stored : Option StoredRow) {r r' : StoredRow}
    → here ≡ true
    → found ≡ (if here then some r else stored)
    → found ≡ some r'
    → r ≡ r'
same_row here found stored e t q = cc (e, t, q)

Agrees-if :
    (here : Bool) (stored : Option StoredRow) (f : Option FoldRow) (r : StoredRow) (g : FoldRow)
    → Agrees stored f
    → Agrees (some r) (some g)
    → Agrees (if here then some r else stored) (if here then some g else f)
Agrees-if true stored f r g a b = b
Agrees-if false stored f r g a b = a

replayed_append :
    (rename : Rename) (es : List EventRow) (e : EventRow)
    → fold rename (map fold_event (es ++ e ∷ [])) ≡ (
        let before = fold rename (map fold_event es) in
        put_row before e.id (step_row rename (fold_event e) (or_zero (find_row before e.id))))
unfolding fold
replayed_append rename es e =
    rw (map-append fold_event es (e ∷ []))
      (fold_from-append rename [] (map fold_event es) (fold_event e))

module _ (rename : Rename) (s : Services) (t : RecordType) (subject : Bytes)
    (src : EventSource) where
  -- The row that is written and the row that is replayed.
  abbrev StepAgrees : NextRow → Event → FoldRow → Type 0
  StepAgrees next ev f =
      (ev.scope ≡ f.scope)
      × (ev.audience ≡ f.audience)
      × (next.removed ≡ f.removed)
      × ((k : Bytes) → raw_equal (get next.fields k) (get f.fields k) ≡ true)

  build_event-step_row :
      (prev : Current) (ev : Event) (stored : Option StoredRow) (f : Option FoldRow) (seq : ℕ)
      → ((k : Bytes) → rename t.name t.schema_version k ≡ k)
      → Fits prev ev stored
      → ((r : StoredRow) → stored ≡ some r → IsMap r.fields)
      → Agrees stored f
      → let b = build_event s t subject src prev ev in
        StepAgrees b.next ev
          (step_row rename (fold_event (event_row s t subject src ev b seq)) (or_zero f))
  unfolding build_event step_row event_row
  build_event-step_row prev ev stored f seq h fits maps agree =
      let same = λ (k : Bytes).
        raw_equal_same _ _ (sym (get-copy_renamed (rename t.name t.schema_version) ev.after k h)) in
      elim (Kind-cases ev.kind) [
        | inl e ↦ rw (e, step_row, event_row, build_event, e) (refl, refl, refl, same)
        | inr (inl e) ↦ rw (e, step_row, event_row, build_event, e) (refl, refl, refl, same)
        | inr (inr (inl e)) ↦
            let kept = subst (λ k. FitsKind k prev ev stored) e fits.1 in
            let from =
              λ (k : Bytes). Agrees-fields stored f kept.0 prev.fields k kept.1 kept.2 agree in
            let m = subst IsMap kept.2 (maps kept.0 kept.1) in
            rw (e, step_row, event_row, build_event, e, kept.3)
              (
                refl,
                refl,
                refl,
                λ k.
                    get-changes (rename t.name t.schema_version) prev.fields ev.after
                      (or_zero f).fields k h m fits.0 (from k),
              )
        | inr (inr (inr e)) ↦
            let kept = subst (λ k. FitsKind k prev ev stored) e fits.1 in
            rw (e, step_row, event_row, build_event)
              (
                refl,
                refl,
                refl,
                λ k. Agrees-fields stored f kept.0 prev.fields k kept.1 kept.2 agree,
              )
      ]

  -- The store after one event, at the identity that the event has and at any other.
  pub write_event-Consistent :
      (cur : Assoc Current) (st : Store) (ev : Event)
      → ((k : Bytes) → rename t.name t.schema_version k ≡ k)
      → Fits (current_or_zero cur ev.key) ev (find_row st.rows (identity t subject ev.key))
      → IsMap (build_event s t subject src (current_or_zero cur ev.key) ev).next.fields
      → Consistent rename st
      → Consistent rename (write_event s t subject src cur st ev)
  unfolding write_event upsert_current event_row stored_row
  write_event-Consistent cur st ev h fits m inv =
      let id = identity t subject ev.key in
      let prev = current_or_zero cur ev.key in
      let b = build_event s t subject src prev ev in
      let row = event_row s t subject src ev b st.next_seq in
      let before = replayed rename st in
      let step =
        build_event-step_row prev ev (find_row st.rows id) (find_row before id) st.next_seq h fits
          (inv.1 id) (inv.0 id) in
      (
        λ i.
            rw
              (
                find_row-put_row st.rows id i
                    (stored_row s t subject src st.rows ev b.next st.next_seq),
                replayed_append rename st.events row,
                find_row-put_row before id i
                    (step_row rename (fold_event row) (or_zero (find_row before id))),
              )
              (Agrees-if (same_identity id i) _ _ _ _ (inv.0 i) step),
        λ i r q. elim (Bool-cases (same_identity id i)) [
          | inl e ↦
              let found =
                find_row-put_row st.rows id i
                  (stored_row s t subject src st.rows ev b.next st.next_seq) in
              subst (λ (x : StoredRow). IsMap x.fields)
                {x = stored_row s t subject src st.rows ev b.next st.next_seq} {y = r}
                (same_row _ _ _ e found q) m
          | inr e ↦ inv.1 i r (
              ground (
                arith,
                e,
                q,
                find_row-put_row st.rows id i
                    (stored_row s t subject src st.rows ev b.next st.next_seq),
              ))
        ],
      )
