-- ===== src/Journal/Apply/Serve.antt =====
-- The operations of internal/journal/apply.go and hold.go: Lookup, Apply, ConfirmHeld, DiscardHeld.
-- A refusal rolls the transaction back.
use glovebox.Prelude.{
  ℕ, Bool, true, false, not, ◌&&◌, ◌||◌, ltb, List, [], ◌∷◌, map, any, Bytes, codes, eq_bytes,
  Option, none, some, if◌then◌else◌, is_nil, length,
}
use glovebox.Prelude.Result.{Result, ok, err}
use glovebox.Journal.Names.{Rejection}
use glovebox.Journal.Diff.Types.{Input, Plan}
use glovebox.Journal.Diff.{Stats, diff, stats}
use glovebox.Journal.Apply.Types.{
  Normalized, Status, applied, duplicate, late, held, discarded, SnapshotRow, Store, Outcome,
  answered, refused, Services, RecordType,
}
use glovebox.Journal.Apply.Build.{EventSource}
use glovebox.Journal.Apply.Write.{load_current, write_plan}

-- reusedRejection
abbrev pub reused_rejection : Rejection
reused_rejection = record { status = 422; reason = codes "snapshot_id_reused" }

abbrev pub erased_rejection : Rejection
erased_rejection = record { status = 410; reason = codes "erased_subject" }

abbrev pub unknown_rejection : Rejection
unknown_rejection = record { status = 409; reason = codes "unknown_subject" }

abbrev pub mismatch_rejection : Rejection
mismatch_rejection = record { status = 422; reason = codes "schema" }

abbrev pub no_stats : Stats
no_stats = record { created = 0; updated = 0; restored = 0; removed = 0; unchanged = 0; stale = 0 }

abbrev pub is_held : Status → Bool
is_held held = true
is_held _ = false

abbrev pub is_applied : Status → Bool
is_applied applied = true
is_applied _ = false

unfoldable pub find_snapshot : List SnapshotRow → Bytes → Option SnapshotRow
find_snapshot [] id = none
find_snapshot (r ∷ rows) id = if eq_bytes r.id id then some r else find_snapshot rows id

-- lookup: none when the id is new.
unfoldable pub lookup : Store → Bytes → Bytes → Bytes → Bytes → Option Outcome
lookup st id writer type scope = elim (find_snapshot st.snapshots id) [
  | none ↦ none
  | some r ↦
      if not (eq_bytes r.writer writer)
        || (not (eq_bytes r.record_type type) || not (eq_bytes r.scope scope))
      then some (refused reused_rejection)
      else some (answered (if is_held r.status then held else duplicate) r.stats)
]

-- banned, of one member: the household is never banned.
unfoldable pub banned : Store → Bytes → Option Rejection
banned st member =
    if not (is_nil member) && any (eq_bytes member) st.erasures then some erased_rejection else none

-- UPDATE snapshot SET status, stats WHERE id
unfoldable pub update_status : Bytes → Status → Stats → SnapshotRow → SnapshotRow
update_status id status stats r =
    if eq_bytes r.id id then record r { status = status; stats = stats } else r

-- The held snapshots of a type and scope observed before a time are discarded.
unfoldable pub discard_older : Bytes → Bytes → ℕ → SnapshotRow → SnapshotRow
discard_older type scope at r =
    if eq_bytes r.record_type type
      && (eq_bytes r.scope scope && (is_held r.status && ltb r.observed_at at))
    then record r { status = discarded }
    else r

-- Applied, of the type and scope, and observed later.
unfoldable pub is_later : Bytes → Bytes → ℕ → SnapshotRow → Bool
is_later type scope at r =
    eq_bytes r.record_type type
    && (eq_bytes r.scope scope && (is_applied r.status && ltb at r.observed_at))

-- Who writes what: the id of the held snapshot when an operator confirms one.
pub record Request : Type 0 where
  pub writer : Bytes
  pub payload : Bytes
  pub confirm_id : Option Bytes

module _ (s : Services) where
  -- checkSubject
  unfoldable pub check_subject : Bytes → Option Rejection
  check_subject subject =
      if is_nil subject || s.roster_has subject then none else some unknown_rejection

  -- storeSnapshot: none when the id is taken.
  unfoldable pub store_snapshot : Store → Normalized → Request → Status → Stats → Option Store
  store_snapshot st n req status stats = elim req.confirm_id [
    | some id ↦ some (record st { snapshots = map (update_status id status stats) st.snapshots })
    | none ↦ elim (find_snapshot st.snapshots n.id) [
      | some _ ↦ none
      | none ↦ some (record st {
        snapshots =
            (record {
              id = n.id;
              record_type = n.record_type.name;
              schema_version = n.version;
              scope = n.scope_key;
              data_subject = n.subject;
              complete = n.complete;
              approximate = n.approximate;
              observed_at = n.observed_at;
              received_at = s.now;
              writer = req.writer;
              status = status;
              payload = req.payload;
              stats = stats;
            })
            ∷ st.snapshots;
      })
    ]
  ]

  -- The answer of a store that was written, and errSnapshotIDReused.
  unfoldable pub or_reused : Store → Option Store → Outcome → Store × Outcome
  or_reused st none out = (st, refused reused_rejection)
  or_reused st (some st') out = (st', out)

  abbrev pub diff_input : Store → Normalized → Input
  diff_input st n = record {
    scope = n.scope_key;
    complete = n.complete;
    range = n.range;
    observed_at = n.observed_at;
    current = load_current st.rows n.record_type.name n.subject;
    records = n.records;
  }

  abbrev pub source_of : Normalized → Request → EventSource
  source_of n req = record {
    snapshot_id = some n.id;
    actor = req.writer;
    observed_at = n.observed_at;
    approximate = n.approximate;
  }

  -- The plan of a snapshot against the store.
  unfoldable pub plan_of : Store → Normalized → Plan
  plan_of st n = diff s.date_text (diff_input st n)

  -- A plan that is not held is written, the snapshot stored, and older held ones discarded.
  unfoldable pub apply_plan : Store → Normalized → Request → Plan → Option Store
  apply_plan st n req plan =
      let written =
        write_plan s n.record_type n.subject (source_of n req) (diff_input st n).current st plan in
      elim (store_snapshot written n req applied (stats plan)) [
        | none ↦ none
        | some st' ↦ some (record st' {
          snapshots =
              map (discard_older n.record_type.name n.scope_key n.observed_at) st'.snapshots;
        })
      ]

  abbrev pub confirming : Request → Bool
  confirming req = elim req.confirm_id [ none ↦ false | some _ ↦ true ]

  -- applyFromOrdering
  unfoldable pub apply_from_ordering : Store → Normalized → Request → Store × Outcome
  apply_from_ordering st n req =
      let plan = plan_of st n in
      if any (is_later n.record_type.name n.scope_key n.observed_at) st.snapshots
      then or_reused st (store_snapshot st n req late no_stats) (answered late no_stats)
      else if not (confirming req) && s.hold plan.live_in_range (length plan.removals)
      then or_reused st (store_snapshot st n req held (stats plan)) (answered held (stats plan))
      else or_reused st (apply_plan st n req plan) (answered applied (stats plan))

  -- The ban and the roster, before applyFromOrdering.
  unfoldable pub admit : Store → Normalized → Request → Store × Outcome
  admit st n req = elim (banned st n.subject) [
    | some rej ↦ (st, refused rej)
    | none ↦ elim (check_subject n.subject) [
      | some rej ↦ (st, refused rej)
      | none ↦ apply_from_ordering st n req
    ]
  ]

  -- Apply
  unfoldable pub apply : Store → Bytes → Normalized → Bytes → Store × Outcome
  apply st writer n payload = elim (lookup st n.id writer n.record_type.name n.scope_key) [
    | some out ↦ (st, out)
    | none ↦ admit st n (record { writer = writer; payload = payload; confirm_id = none })
  ]

-- The errors of the held-snapshot decisions.
pub data HoldError : Type 0 where
  not_found not_held : HoldError

-- WriteCheck: of a writer, a type and a scope.
abbrev pub WriteCheck : Type 0
WriteCheck = Bytes → RecordType → Bytes → Option Rejection

-- ConfirmHeld, of a snapshot whose payload was read back.
unfoldable pub confirm_payload :
    Services → WriteCheck → Store → SnapshotRow → Normalized → Store × Outcome
confirm_payload s may_write st r n =
    if not (eq_bytes n.id r.id)
      || (not (eq_bytes n.record_type.name r.record_type) || not (eq_bytes n.scope_key r.scope))
    then (st, refused mismatch_rejection)
    else elim (may_write r.writer n.record_type n.scope_key) [
      | some rej ↦ (st, refused rej)
      | none ↦
          admit s st n (record { writer = r.writer; payload = r.payload; confirm_id = some r.id })
    ]

unfoldable pub confirm_held :
    Services → WriteCheck → Store → Bytes → Store × Result HoldError Outcome
confirm_held s may_write st id = elim (find_snapshot st.snapshots id) [
  | none ↦ (st, err not_found)
  | some r ↦
      if is_held r.status
      then elim (s.validate_payload r.payload r.received_at) [
        | err rej ↦ (st, ok (refused rej))
        | ok n ↦ let t = confirm_payload s may_write st r n in (t.0, ok t.1)
      ]
      else (st, err not_held)
]

-- DiscardHeld
unfoldable pub discard_held : Store → Bytes → Store × Option HoldError
discard_held st id = elim (find_snapshot st.snapshots id) [
  | none ↦ (st, some not_found)
  | some r ↦
      if is_held r.status
      then (record st { snapshots = map (update_status id discarded r.stats) st.snapshots }, none)
      else (st, some not_held)
]

-- Any sequence of calls, each with the configuration of its moment.
pub data Call : Type 0 where
  apply_call : Services → Bytes → Normalized → Bytes → Call
  confirm_call : Services → WriteCheck → Bytes → Call
  discard_call : Bytes → Call

unfoldable pub serve : Store → Call → Store
serve st (apply_call s writer n payload) = (apply s st writer n payload).0
serve st (confirm_call s may_write id) = (confirm_held s may_write st id).0
serve st (discard_call id) = (discard_held st id).0

unfoldable pub serve_all : Store → List Call → Store
serve_all st [] = st
serve_all st (c ∷ cs) = serve_all (serve st c) cs
