-- ===== src/Journal/Diff.antt =====
-- internal/journal/diff/diff.go and guard.go: one snapshot of a scope against the current rows, as
-- planned change events. Times are nanoseconds; what json.Unmarshal and ValidDate read as a date is
-- the parameter `date_text`.
pub mod Types
pub mod Changes
pub mod Classes
pub mod Removals
pub mod Counts
pub mod Events
use glovebox.Prelude.{
  ℕ, suc, ◌+◌, Bool, true, false, not, ◌&&◌, ◌||◌, ltb, leb, ◌==◌, List, [], ◌∷◌, ◌++◌, any, length,
  Bytes, eq_bytes, lt_bytes, Option, none, some, if◌then◌else◌, is_nil,
}
use glovebox.Prelude.Floats.{Floats}
use glovebox.Journal.Names.{RawMessage}
use glovebox.Journal.Fields.{Assoc, Fields, find, put, get, raw_equal, sort_strings, map_keys}
use Types.{
  Kind, created, updated, removed, restored, Current, Change, Event, Range, NormRecord, Input, Plan,
}

-- The first loop of changes: values of `before` that differ.
unfoldable pub changed_values : Fields → Fields → Assoc Change → Assoc Change
changed_values [] after out = out
changed_values ((k, v) ∷ before) after out =
    changed_values before after
      (if raw_equal v (get after k) then out else put out k (record { old = v; new = get after k }))

-- The second loop: keys that `before` lacks.
unfoldable pub added_values : Fields → Fields → Assoc Change → Assoc Change
added_values before [] out = out
added_values before ((k, v) ∷ after) out =
    added_values before after
      (elim (find before k) [ none ↦ put out k (record { old = none; new = v }) | some _ ↦ out ])

unfoldable pub changes : Fields → Fields → Assoc Change
changes before after = added_values before after (changed_values before after [])

unfoldable pub equal_strings : List Bytes → List Bytes → Bool
equal_strings [] [] = true
equal_strings [] (y ∷ ys) = false
equal_strings (x ∷ xs) [] = false
equal_strings (x ∷ xs) (y ∷ ys) = eq_bytes x y && equal_strings xs ys

-- What the body of the loop over the records does with one of them.
pub data Outcome : Type 0 where
  event : Event → Outcome
  confirm : Bytes → Outcome
  stale : Bytes → Outcome

-- The event of a record that has a row, before its kind is known.
abbrev pub base_event : Input → NormRecord → Current → Event
base_event inp r c = record {
  kind = updated;
  key = r.key;
  scope = inp.scope;
  prev_scope = if eq_bytes c.scope inp.scope then [] else c.scope;
  audience = r.audience;
  prev_audience = if equal_strings c.audience r.audience then [] else c.audience;
  after = r.fields;
  before = c.fields;
  changed = [];
  prev_observed_at = some c.last_confirmed_at;
}

unfoldable pub compare_row : Input → NormRecord → Current → Outcome
compare_row inp r c =
    let moved = not (is_nil (base_event inp r c).prev_scope) in
    let aud_changed = not (equal_strings c.audience r.audience) in
    if ltb inp.observed_at c.last_confirmed_at
    then stale r.key
    else if c.removed
    then event (record (base_event inp r c) { kind = restored })
    else if eq_bytes c.hash r.hash && not moved && not aud_changed
    then confirm r.key
    else if is_nil (changes c.fields r.fields) && not moved && not aud_changed
    then confirm r.key
    else event (record (base_event inp r c) { changed = changes c.fields r.fields })

unfoldable pub classify : Input → NormRecord → Outcome
classify inp r = elim (find inp.current r.key) [
  | none ↦ event (record {
    kind = created;
    key = r.key;
    scope = inp.scope;
    prev_scope = [];
    audience = r.audience;
    prev_audience = [];
    after = r.fields;
    before = [];
    changed = [];
    prev_observed_at = none;
  })
  | some c ↦ compare_row inp r c
]

abbrev pub add_outcome : Plan → Outcome → Plan
add_outcome p (event e) = record p { events = p.events ++ e ∷ [] }
add_outcome p (confirm k) = record p { confirms = p.confirms ++ k ∷ [] }
add_outcome p (stale k) = record p { stales = p.stales ++ k ∷ [] }

-- The loop over the records.
unfoldable pub plan_records : Input → Plan → List NormRecord → Plan
plan_records inp p [] = p
plan_records inp p (r ∷ rs) = plan_records inp (add_outcome p (classify inp r)) rs

unfoldable pub is_present : List NormRecord → Bytes → Bool
is_present [] k = false
is_present (r ∷ rs) k = eq_bytes r.key k || is_present rs k

abbrev pub empty_plan : Plan
empty_plan = record { events = []; removals = []; confirms = []; stales = []; live_in_range = 0 }

-- The planned removal of a row.
abbrev pub removal_event : Bytes → Current → Event
removal_event k c = record {
  kind = removed;
  key = k;
  scope = c.scope;
  prev_scope = [];
  audience = c.audience;
  prev_audience = [];
  after = [];
  before = c.fields;
  changed = [];
  prev_observed_at = some c.last_confirmed_at;
}

module _ (date_text : Bytes → Option Bytes) where
  -- Range.Contains
  unfoldable pub range_contains : Range → RawMessage → Bool
  range_contains rng none = false
  range_contains rng (some v) = elim (date_text v) [
    | none ↦ false
    | some s ↦ not (lt_bytes s rng.from) && not (lt_bytes rng.to s)
  ]

  -- Live, of the scope, and in the range if there is one.
  unfoldable pub counts_live : Input → Current → Bool
  counts_live inp c =
      not c.removed
      && eq_bytes c.scope inp.scope
      && elim inp.range [ none ↦ true | some rng ↦ range_contains rng (get c.fields rng.field) ]

  -- One key of the loop over the sorted keys.
  unfoldable pub visit_key : Input → Plan → Bytes → Plan
  visit_key inp p k = elim (find inp.current k) [
    | none ↦ p
    | some c ↦
        if counts_live inp c
        then (if is_present inp.records k || ltb inp.observed_at c.last_confirmed_at
            then record p { live_in_range = suc p.live_in_range }
            else record p {
              live_in_range = suc p.live_in_range;
              removals = p.removals ++ removal_event k c ∷ [];
            })
        else p
  ]

  unfoldable pub plan_removals : Input → Plan → List Bytes → Plan
  plan_removals inp p [] = p
  plan_removals inp p (k ∷ ks) = plan_removals inp (visit_key inp p k) ks

  unfoldable pub diff : Input → Plan
  diff inp =
      let p = plan_records inp empty_plan inp.records in
      if inp.complete then plan_removals inp p (sort_strings (map_keys inp.current)) else p

-- Stats
pub record Stats : Type 0 where
  pub created : ℕ
  pub updated : ℕ
  pub restored : ℕ
  pub removed : ℕ
  pub unchanged : ℕ
  pub stale : ℕ

abbrev pub count_event : Event → Stats → Stats
count_event e s = elim e.kind [
  | created ↦ record s { created = suc s.created }
  | updated ↦ record s { updated = suc s.updated }
  | restored ↦ record s { restored = suc s.restored }
  | removed ↦ s
]

unfoldable pub count_events : List Event → Stats → Stats
count_events [] s = s
count_events (e ∷ es) s = count_events es (count_event e s)

unfoldable pub stats : Plan → Stats
stats p =
    record (count_events p.events
      (record { created = 0; updated = 0; restored = 0; removed = 0; unchanged = 0; stale = 0 })) {
        removed = length p.removals;
        unchanged = length p.confirms;
        stale = length p.stales;
      }

-- Guard.Hold of guard.go, over float64 and the conversion of an int.
module _ (f : Floats) (from_int : ℕ → f.Num) where
  open f use {Num, mul, le}

  pub record Guard : Type 0 where
    pub max_fraction : Num
    pub min_keys : ℕ

  -- a > b, which no comparison with NaN satisfies
  abbrev exceeds : Num → Num → Bool
  exceeds a b = le b a && not (le a b)

  unfoldable pub hold : Guard → ℕ → ℕ → Bool
  hold g live removals =
      if removals == 0 || leb live g.min_keys
      then false
      else removals == live || exceeds (from_int removals) (mul g.max_fraction (from_int live))
