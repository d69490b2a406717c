-- ===== src/Examples/Diff.antt =====
-- A snapshot of a course against the stored rows: internal/journal/diff.
use mathlib.Core.Path.{subst}
use glovebox.Prelude.{
  some-injective, ◌+◌, ◌≤◌, ◌<◌, ◌≡◌, ◌↔◌, refl, true, false, [], ◌∷◌, In, Bytes, codes, eq_bytes,
  lt_bytes, Option, none, some,
}
use glovebox.Prelude.Floats.{naturals}
use glovebox.Journal.Fields.{Fields, find, get, put, raw_equal, sort_strings, sort_by, insert_by}
use glovebox.Journal.Fields.Laws.{IsMap}
use glovebox.Journal.Diff.Types.{Current, NormRecord, Input, updated}
use glovebox.Journal.Diff.{
  changes, classify, confirm, stale, diff, plan_records, plan_removals, visit_key, counts_live,
  is_present, compare_row, added_values, changed_values, stats, Guard,
}
use glovebox.Journal.Diff.Classes.{ShowsNothingNew, classify_iff}
use glovebox.Journal.Diff.Removals.{removal_keys, Gone, removals_iff}
use glovebox.Journal.Diff.Counts.{stats_account}
use glovebox.Journal.Fold.{FoldEvent, FoldRow, step_row}
use glovebox.Journal.Fold.Replay.{updated_replays}

abbrev math : Bytes
math = codes "source=school"

abbrev grade_key : Bytes
grade_key = codes "grade"

abbrev old_fields : Fields
old_fields = (grade_key, some (codes "\"B\"")) ∷ (codes "room", some (codes "\"12\"")) ∷ []

abbrev new_fields : Fields
new_fields = (grade_key, some (codes "\"A\"")) ∷ []

abbrev row : Current
row = record {
  scope = math;
  audience = codes "guardians" ∷ [];
  fields = old_fields;
  removed = false;
  hash = codes "h1";
  last_seen_at = 5;
  last_confirmed_at = 5;
  scan = [];
}

abbrev essay : NormRecord
essay = record {
  key = codes "essay";
  data_subject = codes "pat";
  audience = codes "guardians" ∷ [];
  fields = new_fields;
  hash = codes "h2";
}

-- One record, and a stored row that the complete snapshot does not hold.
abbrev snapshot : Input
snapshot = record {
  scope = math;
  complete = true;
  range = none;
  observed_at = 9;
  current = (codes "essay", row) ∷ (codes "quiz", row) ∷ [];
  records = essay ∷ [];
}

abbrev no_dates : Bytes → Option Bytes
no_dates v = none

old_fields-IsMap : IsMap old_fields
unfolding find eq_bytes
old_fields-IsMap = (refl, (refl, tt))

new_fields-IsMap : IsMap new_fields
unfolding find
new_fields-IsMap = (refl, tt)

-- The only stored row of the essay.
essay_row : (c : Current) → find snapshot.current essay.key ≡ some c → row ≡ c
unfolding find eq_bytes
essay_row c e = some-injective e

stored_fields-IsMap : (c : Current) → row ≡ c → IsMap c.fields
stored_fields-IsMap c e = subst (λ (x : Current). IsMap x.fields) e old_fields-IsMap

classify_iff_example :
    ((classify snapshot essay ≡ stale essay.key) ↔ (
      (c : Current) × (find snapshot.current essay.key ≡ some c)
      × (snapshot.observed_at < c.last_confirmed_at)))
    × ((classify snapshot essay ≡ confirm essay.key) ↔ (
        (c : Current) × (find snapshot.current essay.key ≡ some c)
        × (c.last_confirmed_at ≤ snapshot.observed_at)
        × ShowsNothingNew snapshot essay c))
classify_iff_example =
    classify_iff snapshot essay (λ c e. stored_fields-IsMap c (essay_row c e)) new_fields-IsMap

removals_iff_example :
    In (codes "quiz") (removal_keys (diff no_dates snapshot))
    ↔ ((snapshot.complete ≡ true) × Gone no_dates snapshot (codes "quiz"))
removals_iff_example = removals_iff no_dates snapshot (codes "quiz")

quiz_removed : removal_keys (diff no_dates snapshot) ≡ codes "quiz" ∷ []
unfolding diff plan_records classify compare_row plan_removals visit_key counts_live is_present find
    eq_bytes sort_strings sort_by insert_by lt_bytes changes added_values changed_values raw_equal
    get put
quiz_removed = refl

stats_account_example :
    let s = stats (diff no_dates snapshot) in
    s.created + s.updated + s.restored + s.unchanged + s.stale ≡ 1
stats_account_example = stats_account no_dates snapshot

abbrev guard : Guard naturals (λ n. n)
guard = record { max_fraction = 0; min_keys = 3 }

abbrev update : FoldEvent
update = record {
  id = record { record_type = codes "score"; data_subject = codes "pat"; key = codes "essay" };
  kind = updated;
  schema_version = 1;
  scope = math;
  audience = codes "guardians" ∷ [];
  fields = [];
  changed = changes old_fields new_fields;
}

abbrev stored : FoldRow
stored = record { scope = math; audience = []; fields = old_fields; removed = false }

updated_replays_example :
    let out = step_row (λ t v k. k) update stored in
    (out.removed ≡ false)
    × (out.scope ≡ math)
    × (out.audience ≡ codes "guardians" ∷ [])
    × ((k : Bytes) → raw_equal (get out.fields k) (get new_fields k) ≡ true)
updated_replays_example =
    updated_replays (λ t v k. k) update stored new_fields refl refl (λ k. refl) old_fields-IsMap
      new_fields-IsMap
