-- ===== src/Journal/Diff/Types.antt =====
-- The data of internal/journal/diff/diff.go, and of internal/journal/record/validate.go what it reads.
use glovebox.Prelude.{ℕ, Bool, List, Bytes, Option}
use glovebox.Journal.Names.{RawMessage}
use glovebox.Journal.Fields.{Assoc, Fields}

pub data Kind : Type 0 where
  created updated removed restored : Kind

-- record.ScanEntry and record.ScanMap
pub record ScanEntry : Type 0 where
  pub verdict : Bytes
  pub scanner_version : Bytes

abbrev pub ScanMap : Type 0
ScanMap = Assoc ScanEntry

-- A row as the diff reads it; its key is the key of the map.
pub record Current : Type 0 where
  pub scope : Bytes
  pub audience : List Bytes
  pub fields : Fields
  pub removed : Bool
  pub hash : Bytes
  pub last_seen_at : ℕ
  pub last_confirmed_at : ℕ
  pub scan : ScanMap

pub record Change : Type 0 where
  pub old : RawMessage
  pub new : RawMessage

pub record Event : Type 0 where
  pub kind : Kind
  pub key : Bytes
  pub scope : Bytes
  pub prev_scope : Bytes
  pub audience : List Bytes
  pub prev_audience : List Bytes
  pub after : Fields
  pub before : Fields
  pub changed : Assoc Change
  pub prev_observed_at : Option ℕ

-- record.Range
pub record Range : Type 0 where
  pub field : Bytes
  pub from : Bytes
  pub to : Bytes

-- record.NormRecord
pub record NormRecord : Type 0 where
  pub key : Bytes
  pub data_subject : Bytes
  pub audience : List Bytes
  pub fields : Fields
  pub hash : Bytes

pub record Input : Type 0 where
  pub scope : Bytes
  pub complete : Bool
  pub range : Option Range
  pub observed_at : ℕ
  pub current : Assoc Current
  pub records : List NormRecord

pub record Plan : Type 0 where
  pub events : List Event
  pub removals : List Event
  pub confirms : List Bytes
  pub stales : List Bytes
  pub live_in_range : ℕ
