-- ===== src/Journal/Apply/Write.antt =====
-- Reading and writing the rows and events of internal/journal/apply.go: loadCurrent, upsertCurrent
-- and writePlan. Stored values come back in the canonical form that they were written in.
use glovebox.Prelude.{
  ℕ, suc, ◌&&◌, ltb, List, [], ◌∷◌, ◌++◌, map, any, Bytes, eq_bytes, none, some, if◌then◌else◌,
}
use glovebox.Journal.Fields.{Assoc, find}
use glovebox.Journal.Diff.Types.{Current, Event, Plan}
use glovebox.Journal.Fold.{Identity, find_row, put_row}
use glovebox.Journal.Apply.Types.{RecordType, EventRow, StoredRow, Store, Services}
use glovebox.Journal.Apply.Build.{EventSource, NextRow, Built, zero_current, build_event}

abbrev pub to_current : StoredRow → Current
to_current r = record {
  scope = r.scope;
  audience = r.audience;
  fields = r.fields;
  removed = r.removed;
  hash = r.content_hash;
  last_seen_at = r.last_seen_at;
  last_confirmed_at = r.last_confirmed_at;
  scan = r.scan;
}

-- loadCurrent: the rows of one type and subject, by key.
unfoldable pub load_current : List (Identity × StoredRow) → Bytes → Bytes → Assoc Current
load_current [] type subject = []
load_current ((i, r) ∷ rows) type subject =
    let rest = load_current rows type subject in
    if eq_bytes i.record_type type && eq_bytes i.data_subject subject
    then (i.key, to_current r) ∷ rest
    else rest

unfoldable pub current_or_zero : Assoc Current → Bytes → Current
current_or_zero cur key = elim (find cur key) [ none ↦ zero_current | some c ↦ c ]

abbrev pub identity : RecordType → Bytes → Bytes → Identity
identity t subject key = record { record_type = t.name; data_subject = subject; key = key }

unfoldable pub later_time : ℕ → ℕ → ℕ
later_time a b = if ltb a b then b else a

module _ (s : Services) (t : RecordType) (subject : Bytes) (src : EventSource) where
  -- The row that upsertCurrent leaves: one that exists keeps when it was first seen.
  unfoldable pub stored_row : List (Identity × StoredRow) → Event → NextRow → ℕ → StoredRow
  stored_row rows ev next seq = record {
    scope = ev.scope;
    audience = ev.audience;
    fields = next.fields;
    removed = next.removed;
    first_seen_at = elim (find_row rows (identity t subject ev.key)) [
      | none ↦ src.observed_at
      | some r ↦ r.first_seen_at
    ];
    last_seen_at = next.last_seen_at;
    last_confirmed_snapshot = src.snapshot_id;
    last_confirmed_at = src.observed_at;
    content_hash = s.hash next.fields;
    last_event_seq = seq;
    scan = next.scan;
  }

  -- upsertCurrent
  unfoldable pub upsert_current :
      List (Identity × StoredRow) → Event → NextRow → ℕ → List (Identity × StoredRow)
  upsert_current rows ev next seq =
      put_row rows (identity t subject ev.key) (stored_row rows ev next seq)

  -- One event of the loop, with what was built for it from the rows at the start.
  unfoldable pub event_row : Event → Built → ℕ → EventRow
  event_row ev b seq = record {
    seq = seq;
    id = identity t subject ev.key;
    kind = ev.kind;
    schema_version = t.schema_version;
    scope = ev.scope;
    audience = ev.audience;
    prev_audience = ev.prev_audience;
    columns = b.columns;
    observed_at = src.observed_at;
    approximate = src.approximate;
    snapshot_id = src.snapshot_id;
    actor = src.actor;
  }

  unfoldable pub write_event : Assoc Current → Store → Event → Store
  write_event cur st ev =
      let b = build_event s t subject src (current_or_zero cur ev.key) ev in
      record st {
        events = st.events ++ event_row ev b st.next_seq ∷ [];
        rows = upsert_current st.rows ev b.next st.next_seq;
        next_seq = suc st.next_seq;
      }

  unfoldable pub write_events : Assoc Current → Store → List Event → Store
  write_events cur st [] = st
  write_events cur st (ev ∷ evs) = write_events cur (write_event cur st ev) evs

  -- The update of the rows that a snapshot only confirms.
  unfoldable pub confirmed_row : List Bytes → Identity → StoredRow → StoredRow
  confirmed_row confirms i r =
      if eq_bytes i.record_type t.name
        && (eq_bytes i.data_subject subject && any (eq_bytes i.key) confirms)
      then record r {
        last_seen_at = later_time r.last_seen_at src.observed_at;
        last_confirmed_snapshot = src.snapshot_id;
        last_confirmed_at = src.observed_at;
      }
      else r

  abbrev pub confirm_row : List Bytes → Identity × StoredRow → Identity × StoredRow
  confirm_row confirms (i, r) = (i, confirmed_row confirms i r)

  unfoldable pub write_plan : Assoc Current → Store → Plan → Store
  write_plan cur st plan =
      let written = write_events cur st (plan.events ++ plan.removals) in
      record written { rows = map (confirm_row plan.confirms) written.rows }
