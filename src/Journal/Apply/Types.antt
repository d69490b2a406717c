-- ===== src/Journal/Apply/Types.antt =====
-- The tables that internal/journal/apply.go and hold.go read and write, the validated snapshot of
-- internal/journal/record/validate.go and the record type of types.go. Times are nanoseconds; the
-- operator's detail texts and the metrics are left out.
use glovebox.Prelude.{ℕ, Bool, false, List, [], Bytes, codes, eq_bytes, Option, none, some}
use glovebox.Prelude.Result.{Result}
use glovebox.Journal.Names.{Rejection}
use glovebox.Journal.Fields.{Assoc, Fields, find}
use glovebox.Journal.Diff.Types.{Kind, Change, Range, NormRecord, ScanMap}
use glovebox.Journal.Diff.{Stats}
use glovebox.Journal.Fold.{Identity}

-- record.Type: of the declared fields, their types.
pub record RecordType : Type 0 where
  pub name : Bytes
  pub schema_version : ℕ
  pub field_types : Assoc Bytes

-- Type.IsText
unfoldable pub is_text : RecordType → Bytes → Bool
is_text t field = elim (find t.field_types field) [
  | none ↦ false
  | some type ↦ eq_bytes type (codes "text")
]

-- Normalized
pub record Normalized : Type 0 where
  pub id : Bytes
  pub record_type : RecordType
  pub version : ℕ
  pub scope_key : Bytes
  pub subject : Bytes
  pub complete : Bool
  pub range : Option Range
  pub observed_at : ℕ
  pub approximate : Bool
  pub records : List NormRecord

-- The statuses of a stored snapshot and of an answer.
pub data Status : Type 0 where
  applied duplicate late held discarded : Status

pub record SnapshotRow : Type 0 where
  pub id : Bytes
  pub record_type : Bytes
  pub schema_version : ℕ
  pub scope : Bytes
  pub data_subject : Bytes
  pub complete : Bool
  pub approximate : Bool
  pub observed_at : ℕ
  pub received_at : ℕ
  pub writer : Bytes
  pub status : Status
  pub payload : Bytes
  pub stats : Stats

-- record.EventScan: an empty verdict is none.
pub record EventScan : Type 0 where
  pub old : Bytes
  pub new : Bytes
  pub scanner_version : Bytes

-- rules.EventView and rules.Outcome, whose notices are not looked into.
pub record EventView : Type 0 where
  pub record_type : Bytes
  pub data_subject : Bytes
  pub key : Bytes
  pub scope : Bytes
  pub kind : Kind
  pub before : Fields
  pub after : Fields

pub record Ruling : Type 0 where
  pub importance : Bytes
  pub rule : Bytes
  pub group_key : Bytes
  pub notify : List Bytes

-- The columns of an event that need building; `changed` and `before` are one column, the changes of
-- an update or the values of a removal.
pub record EventColumns : Type 0 where
  pub prev_scope : Option Bytes
  pub fields : Fields
  pub changed : Assoc Change
  pub before : Fields
  pub scan : Assoc EventScan
  pub prev_observed : Option ℕ
  pub ruling : Ruling

pub record EventRow : Type 0 where
  pub seq : ℕ
  pub id : Identity
  pub kind : Kind
  pub schema_version : ℕ
  pub scope : Bytes
  pub audience : List Bytes
  pub prev_audience : List Bytes
  pub columns : EventColumns
  pub observed_at : ℕ
  pub approximate : Bool
  pub snapshot_id : Option Bytes
  pub actor : Bytes

-- A row of record_current, less its identity.
pub record StoredRow : Type 0 where
  pub scope : Bytes
  pub audience : List Bytes
  pub fields : Fields
  pub removed : Bool
  pub first_seen_at : ℕ
  pub last_seen_at : ℕ
  pub last_confirmed_snapshot : Option Bytes
  pub last_confirmed_at : ℕ
  pub content_hash : Bytes
  pub last_event_seq : ℕ
  pub scan : ScanMap

pub record Store : Type 0 where
  pub snapshots : List SnapshotRow
  pub rows : List (Identity × StoredRow)
  pub events : List EventRow
  pub erasures : List Bytes
  pub next_seq : ℕ

abbrev pub empty_store : Store
empty_store = record { snapshots = []; rows = []; events = []; erasures = []; next_seq = 1 }

-- What a write did.
pub data Outcome : Type 0 where
  answered : Status → Stats → Outcome
  refused : Rejection → Outcome

-- What the journal is configured with: the scanner's version and what it answers
-- when it is asked about a JSON value of a row's field, read as a string (which the text alone need not
-- decide, since a scan can time out), the rules, the guard, the roster (no subject without one), the hash of fields, reading a
-- date, the validation of a stored payload, and the clock.
pub record Services : Type 0 where
  pub scanner_version : Bytes
  pub verdict : (key field text : Bytes) → Bytes
  pub evaluate : EventView → Ruling
  pub hold : ℕ → ℕ → Bool
  pub roster_has : Bytes → Bool
  pub hash : Fields → Bytes
  pub date_text : Bytes → Option Bytes
  pub validate_payload : Bytes → ℕ → Result Rejection Normalized
  pub now : ℕ
