-- ===== src/Journal/Fold.antt =====
-- internal/journal/diff/fold.go: replaying the events of the journal into current rows. The map of
-- the rows is a list of entries; `rename` maps a field name of an old schema version to the active one.
pub mod Replay
pub mod Rows
use glovebox.Prelude.{
  ℕ, Bool, true, false, not, ◌&&◌, List, [], ◌∷◌, ◌==◌, Bytes, eq_bytes, lt_bytes, Option, none,
  some, if◌then◌else◌,
}
use glovebox.Journal.Names.{RawMessage}
use glovebox.Journal.Fields.{Assoc, Fields, find, put, delete, get, sort_by, map_keys, keys}
use glovebox.Journal.Diff.Types.{Kind, created, updated, removed, restored, Change}

pub record Identity : Type 0 where
  pub record_type : Bytes
  pub data_subject : Bytes
  pub key : Bytes

pub record FoldEvent : Type 0 where
  pub id : Identity
  pub kind : Kind
  pub schema_version : ℕ
  pub scope : Bytes
  pub audience : List Bytes
  pub fields : Fields
  pub changed : Assoc Change

pub record FoldRow : Type 0 where
  pub scope : Bytes
  pub audience : List Bytes
  pub fields : Fields
  pub removed : Bool

abbrev pub zero_row : FoldRow
zero_row = record { scope = []; audience = []; fields = []; removed = false }

abbrev pub Rename : Type 0
Rename = Bytes → ℕ → Bytes → Bytes

unfoldable pub same_identity : Identity → Identity → Bool
same_identity a b =
    eq_bytes a.record_type b.record_type
    && eq_bytes a.data_subject b.data_subject
    && eq_bytes a.key b.key

-- The rows, by identity.
abbrev pub Rows : Type 0
Rows = List (Identity × FoldRow)

-- A map by identity: out[id], which is the zero row when it is missing, and out[id] = row.
module _ {Row : Type 0} where
  unfoldable pub find_row : List (Identity × Row) → Identity → Option Row
  find_row [] id = none
  find_row ((i, r) ∷ rows) id = if same_identity i id then some r else find_row rows id

  unfoldable pub put_row : List (Identity × Row) → Identity → Row → List (Identity × Row)
  put_row [] id r = (id, r) ∷ []
  put_row ((i, q) ∷ rows) id r =
      if same_identity i id then (id, r) ∷ rows else (i, q) ∷ put_row rows id r

abbrev pub or_zero : Option FoldRow → FoldRow
or_zero none = zero_row
or_zero (some r) = r

-- The names that are not renamed first, each group in order.
unfoldable pub renames_later : (Bytes → Bytes) → Bytes → Bytes → Bool
renames_later to a b =
    let ra = not (eq_bytes (to a) a) in
    let rb = not (eq_bytes (to b) b) in
    if ra && not rb then false else if not ra && rb then true else lt_bytes a b

unfoldable pub order_keys : (Bytes → Bytes) → List Bytes → List Bytes
order_keys to ks = sort_by (renames_later to) ks

-- The loop of created and restored.
unfoldable pub copy_renamed : (Bytes → Bytes) → Fields → List Bytes → Fields → Fields
copy_renamed to source [] out = out
copy_renamed to source (k ∷ ks) out = copy_renamed to source ks (put out (to k) (get source k))

-- e.Changed[k].New
unfoldable pub new_value : Assoc Change → Bytes → RawMessage
new_value changed k = elim (find changed k) [ none ↦ none | some c ↦ c.new ]

-- The two loops of updated: first the deletions, then the values that are set.
unfoldable pub apply_deletes : (Bytes → Bytes) → Assoc Change → List Bytes → Fields → Fields
apply_deletes to changed [] fields = fields
apply_deletes to changed (k ∷ ks) fields =
    apply_deletes to changed ks
      (elim (new_value changed k) [ none ↦ delete fields (to k) | some _ ↦ fields ])

unfoldable pub apply_sets : (Bytes → Bytes) → Assoc Change → List Bytes → Fields → Fields
apply_sets to changed [] fields = fields
apply_sets to changed (k ∷ ks) fields =
    apply_sets to changed ks
      (elim (new_value changed k) [ none ↦ fields | some v ↦ put fields (to k) (some v) ])

unfoldable pub apply_changes : (Bytes → Bytes) → Assoc Change → Fields → Fields
apply_changes to changed fields =
    let ks = order_keys to (map_keys changed) in
    apply_sets to changed ks (apply_deletes to changed ks fields)

-- One event, on the row of its identity.
unfoldable pub step_row : Rename → FoldEvent → FoldRow → FoldRow
step_row rename e row =
    let to = rename e.id.record_type e.schema_version in
    let copied : FoldRow = record {
      scope = e.scope;
      audience = e.audience;
      fields = copy_renamed to e.fields (order_keys to (keys e.fields)) [];
      removed = false;
    } in
    elim e.kind [
      | created ↦ copied
      | restored ↦ copied
      | updated ↦ record {
        scope = e.scope;
        audience = e.audience;
        fields = apply_changes to e.changed row.fields;
        removed = false;
      }
      | removed ↦ record row { removed = true; scope = e.scope; audience = e.audience }
    ]

-- Fold, from the rows so far.
unfoldable pub fold_from : Rename → Rows → List FoldEvent → Rows
fold_from rename rows [] = rows
fold_from rename rows (e ∷ es) =
    fold_from rename (put_row rows e.id (step_row rename e (or_zero (find_row rows e.id)))) es

unfoldable pub fold : Rename → List FoldEvent → Rows
fold rename es = fold_from rename [] es
