-- ===== src/Examples/Apply.antt =====
-- A course sent twice, changed in between: internal/journal/apply.go and hold.go.
use glovebox.Prelude.{
  ℕ, ◌≡◌, refl, true, false, [], ◌∷◌, In, All, Bytes, codes, eq_bytes, arith, none, some,
  if◌then◌else◌, List, sym, inl, inr, lt_bytes,
}
use mathlib.Core.Path.{subst}
use glovebox.Prelude.Result.{err}
use glovebox.Prelude.Floats.{naturals}
use glovebox.Journal.Fields.{
  Fields, find, sort_strings, sort_by, delete, get, insert_by, put, raw_equal,
}
use glovebox.Journal.Diff.Types.{NormRecord}
use glovebox.Journal.Diff.{
  hold, Stats, diff, plan_removals, plan_records, classify, added_values, changed_values, changes,
  compare_row, count_events, counts_live, equal_strings, is_present, range_contains, stats,
  visit_key,
}
use glovebox.Journal.Diff.Events.{Proper}
use glovebox.Journal.Fold.{Rename, Identity, find_row, put_row, same_identity}
use glovebox.Journal.Apply.Types.{
  RecordType, Normalized, applied, held, duplicate, Store, empty_store, answered, Services,
  SnapshotRow, StoredRow, discarded, is_text,
}
use glovebox.Journal.Apply.Write.{
  load_current, confirmed_row, current_or_zero, event_row, later_time, stored_row, upsert_current,
  write_event, write_events, write_plan,
}
use glovebox.Journal.Apply.Build.{
  build_event, change_scan, entry_of, event_scan_changes, event_scan_fields, event_scan_removed,
  keep_entries, rescan_changes, rule_view, scan_fields, scan_new,
}
use glovebox.Journal.Apply.Serve.{
  Call, apply_call, confirm_call, discard_call, serve_all, serve, apply, lookup, find_snapshot,
  admit, banned, check_subject, apply_from_ordering, is_later, discard_held, confirm_held, plan_of,
  or_reused, apply_plan, store_snapshot, confirm_payload, discard_older, update_status,
}
use glovebox.Journal.Apply.Sequences.{AllowedCall}
use glovebox.Journal.Apply.Agrees.{Agrees, replayed}
use glovebox.Journal.Apply.Scans.{Judged}
use glovebox.Journal.Apply.Judging.{ValidOf, Gave, serve_all-Judged}
use glovebox.Journal.Apply.Settle.{inserted_row}
use glovebox.Journal.Apply.Answers.{Answers}
use glovebox.Journal.Apply.Resend.{apply_again}
use glovebox.Journal.Apply.Final.{serve_all-find_snapshot}
use glovebox.Journal.Apply.Refinement.{Valid, serve_all-Agrees}

abbrev course : RecordType
course = record {
  name = codes "course";
  schema_version = 1;
  field_types = (codes "title", codes "text") ∷ (codes "room", codes "token") ∷ [];
}

abbrev keep_names : Rename
keep_names type version k = k

abbrev first_fields : Fields
first_fields = (codes "title", some (codes "Math")) ∷ (codes "room", some (codes "12")) ∷ []

abbrev second_fields : Fields
second_fields = (codes "title", some (codes "Maths")) ∷ []

abbrev course_record : Fields → Bytes → NormRecord
course_record fields hash = record {
  key = codes "c1";
  data_subject = codes "pat";
  audience = codes "guardians" ∷ [];
  fields = fields;
  hash = hash;
}

abbrev snapshot : Bytes → ℕ → Fields → Normalized
snapshot id at fields = record {
  id = id;
  record_type = course;
  version = 1;
  scope_key = codes "source=school";
  subject = codes "pat";
  complete = true;
  range = none;
  observed_at = at;
  approximate = false;
  records = course_record fields id ∷ [];
}

-- A scanner that passes everything but the longer title, a roster of one, and a guard over numbers.
abbrev services : Services
services = record {
  scanner_version = codes "v1";
  verdict =
      λ key field text. if eq_bytes text (codes "Maths") then codes "quarantine" else codes "pass";
  evaluate = λ view. record { importance = codes "low"; rule = []; group_key = []; notify = [] };
  hold = hold naturals (λ n. n) (record { max_fraction = 1; min_keys = 3 });
  roster_has = λ subject. eq_bytes subject (codes "pat");
  hash = λ fields. [];
  date_text = λ v. none;
  validate_payload = λ payload at. err (record { status = 422; reason = codes "schema" });
  now = 100;
}

abbrev calls : List Call
calls =
    apply_call services (codes "importer") (snapshot (codes "s1") 10 first_fields) (codes "{1}")
    ∷ apply_call services (codes "importer") (snapshot (codes "s2") 20 second_fields) (codes "{2}")
    ∷ confirm_call services (λ writer t scope. none) (codes "s1")
    ∷ discard_call (codes "s2")
    ∷ []

first_fields-Proper : Proper first_fields
unfolding find eq_bytes
first_fields-Proper = ((refl, (refl, tt)), λ k v e n. ground (arith, e, n))

second_fields-Proper : Proper second_fields
unfolding find eq_bytes
second_fields-Proper = ((refl, tt), λ k v e n. ground (arith, e, n))

course_record-Proper :
    (fields : Fields) (hash : Bytes)
    → Proper fields
    → (r : NormRecord) → In r (course_record fields hash ∷ [])
    → Proper r.fields
course_record-Proper fields hash p r (inl q) = subst (λ (x : NormRecord). Proper x.fields) (sym q) p
course_record-Proper fields hash p r (inr n) = absurd n

calls-Valid : All (AllowedCall (Valid keep_names)) calls
unfolding is_present
calls-Valid = (
  ((refl, tt), course_record-Proper first_fields (codes "s1") first_fields-Proper, λ k. refl),
  (
    ((refl, tt), course_record-Proper second_fields (codes "s2") second_fields-Proper, λ k. refl),
    ((λ payload at n e. cc), (tt, tt)),
  ),
)

abbrev course_id : Identity
course_id = record { record_type = codes "course"; data_subject = codes "pat"; key = codes "c1" }

serve_all-Agrees_example :
    let st = serve_all empty_store calls in
    Agrees (find_row st.rows course_id) (find_row (replayed keep_names st) course_id)
serve_all-Agrees_example = serve_all-Agrees keep_names calls course_id calls-Valid

abbrev only_course : Bytes → RecordType
only_course name = course

calls-ValidOf : All (AllowedCall (ValidOf only_course)) calls
unfolding is_present
calls-ValidOf = (
  ((refl, tt), course_record-Proper first_fields (codes "s1") first_fields-Proper, refl),
  (
    ((refl, tt), course_record-Proper second_fields (codes "s2") second_fields-Proper, refl),
    ((λ payload at n e. cc), (tt, tt)),
  ),
)

abbrev course_row : StoredRow
course_row = record {
  scope = codes "source=school";
  audience = codes "guardians" ∷ [];
  fields = second_fields;
  removed = false;
  first_seen_at = 10;
  last_seen_at = 20;
  last_confirmed_snapshot = some (codes "s2");
  last_confirmed_at = 20;
  content_hash = [];
  last_event_seq = 2;
  scan =
      (codes "title", record { verdict = codes "quarantine"; scanner_version = codes "v1" }) ∷ [];
}

-- The second snapshot updated the row.
stored_course : find_row (serve_all empty_store calls).rows course_id ≡ some course_row
unfolding serve_all serve apply lookup find_snapshot admit banned check_subject apply_from_ordering
    is_later find_row discard_held confirm_held eq_bytes hold plan_of diff plan_removals
    sort_strings sort_by load_current plan_records classify find or_reused apply_plan store_snapshot
    build_event change_scan entry_of event_scan_changes event_scan_fields event_scan_removed
    keep_entries rescan_changes rule_view scan_fields scan_new confirm_payload discard_older
    update_status is_text confirmed_row current_or_zero event_row later_time stored_row
    upsert_current write_event write_events write_plan added_values changed_values changes
    compare_row count_events counts_live equal_strings is_present range_contains stats visit_key
    delete get insert_by put raw_equal put_row same_identity lt_bytes
stored_course = refl

serve_all-Judged_example : Judged (Gave calls) course course_row.fields course_row.scan
serve_all-Judged_example =
    serve_all-Judged only_course calls course_id course_row calls-ValidOf stored_course

abbrev one_created : Stats
one_created = record {
  created = 1;
  updated = 0;
  restored = 0;
  removed = 0;
  unchanged = 0;
  stale = 0;
}

abbrev first_snapshot : Normalized
first_snapshot = snapshot (codes "s1") 10 first_fields

first_applied :
    (apply services empty_store (codes "importer") first_snapshot (codes "{1}")).1
    ≡ answered applied one_created
unfolding serve_all serve apply lookup find_snapshot admit banned check_subject apply_from_ordering
    is_later find_row discard_held confirm_held eq_bytes hold plan_of diff plan_removals
    sort_strings sort_by load_current plan_records classify find or_reused apply_plan store_snapshot
    build_event change_scan entry_of event_scan_changes event_scan_fields event_scan_removed
    keep_entries rescan_changes rule_view scan_fields scan_new confirm_payload discard_older
    update_status is_text confirmed_row current_or_zero event_row later_time stored_row
    upsert_current write_event write_events write_plan added_values changed_values changes
    compare_row count_events counts_live equal_strings is_present range_contains stats visit_key
    delete get insert_by put raw_equal put_row same_identity lt_bytes
first_applied = refl

apply_again_example :
    let st =
      serve_all
        (apply services empty_store (codes "importer") first_snapshot (codes "{1}")).0
        calls in
    apply services st (codes "importer") first_snapshot [] ≡ (st, answered duplicate one_created)
apply_again_example =
    apply_again services services empty_store (codes "importer") first_snapshot (codes "{1}") []
      calls applied one_created first_applied (inr refl)

abbrev discarded_row : SnapshotRow
discarded_row =
    record (inserted_row services first_snapshot (codes "importer") [] held one_created) {
      status = discarded;
    }

abbrev discarded_store : Store
discarded_store = record empty_store { snapshots = discarded_row ∷ [] }

discarded_found : find_snapshot discarded_store.snapshots (codes "s1") ≡ some discarded_row
unfolding find_snapshot eq_bytes
discarded_found = refl

serve_all-find_snapshot_example :
    find_snapshot (serve_all discarded_store calls).snapshots (codes "s1") ≡ some discarded_row
serve_all-find_snapshot_example =
    serve_all-find_snapshot discarded_store calls (codes "s1") discarded_row discarded_found refl
