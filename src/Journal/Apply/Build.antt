-- ===== src/Journal/Apply/Build.antt =====
-- buildEvent of internal/journal/apply.go: the columns of one planned event and its row after it.
use glovebox.Prelude.{
  ℕ, Bool, true, false, [], ◌∷◌, Bytes, eq_bytes, Option, none, some, if◌then◌else◌, is_nil,
}
use glovebox.Journal.Names.{RawMessage}
use glovebox.Journal.Fields.{Assoc, Fields, find, put, delete, or_empty}
use glovebox.Journal.Diff.Types.{
  created, updated, removed, restored, Current, Change, Event, ScanEntry, ScanMap,
}
use glovebox.Journal.Apply.Types.{RecordType, is_text, EventScan, EventView, EventColumns, Services}

-- eventSource
pub record EventSource : Type 0 where
  pub snapshot_id : Option Bytes
  pub actor : Bytes
  pub observed_at : ℕ
  pub approximate : Bool

-- currentRow, less what the event has: its key, scope and audience
pub record NextRow : Type 0 where
  pub fields : Fields
  pub removed : Bool
  pub last_seen_at : ℕ
  pub scan : ScanMap

-- The columns and the row together.
pub record Built : Type 0 where
  pub columns : EventColumns
  pub next : NextRow

-- cur[ev.Key] of a key without a row
abbrev pub zero_current : Current
zero_current = record {
  scope = [];
  audience = [];
  fields = [];
  removed = false;
  hash = [];
  last_seen_at = 0;
  last_confirmed_at = 0;
  scan = [];
}

abbrev no_entry : ScanEntry
no_entry = record { verdict = []; scanner_version = [] }

-- prev.Scan[f]
unfoldable pub entry_of : ScanMap → Bytes → ScanEntry
entry_of scan f = elim (find scan f) [ none ↦ no_entry | some e ↦ e ]

module _ (s : Services) where
  -- scanNew: what is not a string is read as the empty one
  unfoldable pub scan_new : (key field : Bytes) → RawMessage → Bytes
  scan_new key f v = s.verdict key f (or_empty v)

  -- The verdict on a value by the present scanner.
  abbrev pub fresh_entry : (key field : Bytes) → RawMessage → ScanEntry
  fresh_entry key f v = record { verdict = scan_new key f v; scanner_version = s.scanner_version }

  -- The loop of created and restored: every text field is scanned.
  unfoldable pub scan_fields : Bytes → RecordType → Fields → ScanMap → ScanMap
  scan_fields key t [] out = out
  scan_fields key t ((f, v) ∷ after) out =
      scan_fields key t after (if is_text t f then put out f (fresh_entry key f v) else out)

  unfoldable pub event_scan_fields : Bytes → RecordType → Fields → Assoc EventScan → Assoc EventScan
  event_scan_fields key t [] out = out
  event_scan_fields key t ((f, v) ∷ after) out = event_scan_fields key t after (
      if is_text t f
      then put out f
          (record { old = []; new = scan_new key f v; scanner_version = s.scanner_version })
      else out)

  -- The first loop of updated: unchanged values keep their verdict.
  unfoldable pub keep_entries : Fields → ScanMap → ScanMap → ScanMap
  keep_entries after [] out = out
  keep_entries after ((f, e) ∷ scan) out =
      keep_entries after scan (elim (find after f) [ none ↦ out | some _ ↦ put out f e ])

  -- The second loop of updated: changed text is scanned.
  unfoldable pub rescan_changes : Bytes → RecordType → Assoc Change → ScanMap → ScanMap
  rescan_changes key t [] out = out
  rescan_changes key t ((f, c) ∷ changed) out = rescan_changes key t changed (
      if is_text t f
      then elim c.new [ none ↦ delete out f | some _ ↦ put out f (fresh_entry key f c.new) ]
      else out)

  -- The verdicts of an event on both sides of a change; the version is empty when they differ.
  unfoldable pub change_scan : (key field : Bytes) → ScanEntry → Change → EventScan
  change_scan key f old c = record {
    old = elim c.old [ none ↦ [] | some _ ↦ old.verdict ];
    new = elim c.new [ none ↦ [] | some _ ↦ scan_new key f c.new ];
    scanner_version = elim c.old [
      | none ↦ s.scanner_version
      | some _ ↦ if eq_bytes old.scanner_version s.scanner_version then s.scanner_version else []
    ];
  }

  unfoldable pub event_scan_changes :
      Bytes → RecordType → ScanMap → Assoc Change → Assoc EventScan → Assoc EventScan
  event_scan_changes key t prev [] out = out
  event_scan_changes key t prev ((f, c) ∷ changed) out =
      event_scan_changes key t prev changed
        (if is_text t f then put out f (change_scan key f (entry_of prev f) c) else out)

  -- The loop of removed: old verdicts.
  unfoldable pub event_scan_removed :
      RecordType → ScanMap → Fields → Assoc EventScan → Assoc EventScan
  event_scan_removed t prev [] out = out
  event_scan_removed t prev ((f, v) ∷ before) out = event_scan_removed t prev before (
      if is_text t f
      then put out f (record {
        old = (entry_of prev f).verdict;
        new = [];
        scanner_version = (entry_of prev f).scanner_version;
      })
      else out)

  unfoldable pub rule_view : RecordType → Bytes → Event → EventView
  rule_view t subject ev = record {
    record_type = t.name;
    data_subject = subject;
    key = ev.key;
    scope = ev.scope;
    kind = ev.kind;
    before = elim ev.kind [ updated ↦ ev.before | removed ↦ ev.before | _ ↦ [] ];
    after = elim ev.kind [ removed ↦ [] | _ ↦ ev.after ];
  }

  unfoldable pub build_event : RecordType → Bytes → EventSource → Current → Event → Built
  build_event t subject src prev ev =
      let columns : EventColumns = record {
        prev_scope = if is_nil ev.prev_scope then none else some ev.prev_scope;
        fields = [];
        changed = [];
        before = [];
        scan = [];
        prev_observed = ev.prev_observed_at;
        ruling = s.evaluate (rule_view t subject ev);
      } in
      let written : Built = record {
        columns = record columns {
          fields = ev.after;
          scan = event_scan_fields ev.key t ev.after [];
        };
        next = record {
          fields = ev.after;
          removed = false;
          last_seen_at = src.observed_at;
          scan = scan_fields ev.key t ev.after [];
        };
      } in
      elim ev.kind [
        | created ↦ written
        | restored ↦ written
        | updated ↦ record {
          columns = record columns {
            changed = ev.changed;
            scan = event_scan_changes ev.key t prev.scan ev.changed [];
          };
          next = record {
            fields = ev.after;
            removed = false;
            last_seen_at = src.observed_at;
            scan = rescan_changes ev.key t ev.changed (keep_entries ev.after prev.scan []);
          };
        }
        | removed ↦ record {
          columns = record columns {
            before = ev.before;
            scan = event_scan_removed t prev.scan ev.before [];
          };
          next = record {
            fields = prev.fields;
            removed = true;
            last_seen_at = prev.last_seen_at;
            scan = prev.scan;
          };
        }
      ]
