-- ===== src/Journal/Apply/Settle.antt =====
-- A new snapshot that Apply of internal/journal/apply.go admits: late, held or applied.
use glovebox.Prelude.{
  ℕ, Bool, true, ◌<◌, ◌⊎◌, ◌↔◌, In, any_sound, any_complete, eq_bytes→eq, eq→eq_bytes, ◌≡◌, refl,
  sym, false, List, ◌∷◌, map, any, arith, Bytes, eq_bytes_iff, eq_bytes_refl, length, none, some,
  Bool-cases, inl, inr,
}
use mathlib.Core.Path.{subst}
use glovebox.Journal.Diff.{Stats, stats}
use glovebox.Journal.Apply.Types.{
  Normalized, Status, held, applied, late, duplicate, discarded, SnapshotRow, Store, Services,
  Outcome, answered,
}
use glovebox.Journal.Apply.Serve.{
  Request, find_snapshot, discard_older, is_held, store_snapshot, or_reused, plan_of, apply_plan,
  apply_from_ordering, no_stats, is_later, is_applied,
}
use glovebox.Journal.Apply.Sequences.{written_plan, written_plan-snapshots}

abbrev pub insert_request : Bytes → Bytes → Request
insert_request writer payload = record { writer = writer; payload = payload; confirm_id = none }

-- The snapshot that Apply stores.
abbrev pub inserted_row : Services → Normalized → Bytes → Bytes → Status → Stats → SnapshotRow
inserted_row s n writer payload status stats = record {
  id = n.id;
  record_type = n.record_type.name;
  schema_version = n.version;
  scope = n.scope_key;
  data_subject = n.subject;
  complete = n.complete;
  approximate = n.approximate;
  observed_at = n.observed_at;
  received_at = s.now;
  writer = writer;
  status = status;
  payload = payload;
  stats = stats;
}

-- The store with a new snapshot, nothing else changed.
abbrev pub with_snapshot : Services → Store → Normalized → Bytes → Bytes → Status → Stats → Store
with_snapshot s st n writer payload status stats = record st {
  snapshots = inserted_row s n writer payload status stats ∷ st.snapshots;
}

-- The store after the plan was written: the new snapshot is applied, and older held ones of the same
-- type and scope are discarded.
abbrev pub with_plan : Services → Store → Normalized → Bytes → Bytes → Store
with_plan s st n writer payload =
    let w = written_plan s st n (insert_request writer payload) in
    record w {
      snapshots =
          map (discard_older n.record_type.name n.scope_key n.observed_at)
            (inserted_row s n writer payload applied (stats (plan_of s st n)) ∷ w.snapshots);
    }

-- A snapshot of the type and scope that was observed later is applied.
abbrev pub Overtaken : Store → Normalized → Type 0
Overtaken st n =
    (r : SnapshotRow) × In r st.snapshots
    × (r.record_type ≡ n.record_type.name)
    × (r.scope ≡ n.scope_key)
    × (r.status ≡ applied)
    × (n.observed_at < r.observed_at)

-- The guard holds back what the plan removes.
abbrev pub holds_back : Services → Store → Normalized → Bool
holds_back s st n = let plan = plan_of s st n in s.hold plan.live_in_range (length plan.removals)

-- What a new snapshot of an admitted subject comes to: late when it is overtaken, else held when the
-- guard holds it back, both only stored, and else applied.
abbrev pub Settled : Services → Store → Normalized → Bytes → Bytes → Store × Outcome → Type 0
Settled s st n writer payload t =
    (Overtaken st n
      × (t ≡ (with_snapshot s st n writer payload late no_stats, answered late no_stats)))
    ⊎ ((¬ Overtaken st n)
        × (holds_back s st n ≡ true)
        × (t ≡ (
          with_snapshot s st n writer payload held (stats (plan_of s st n)),
          answered held (stats (plan_of s st n)),
        )))
    ⊎ ((¬ Overtaken st n)
        × (holds_back s st n ≡ false)
        × (t ≡ (with_plan s st n writer payload, answered applied (stats (plan_of s st n))))
        × (find_snapshot (with_plan s st n writer payload).snapshots n.id
            ≡ some (inserted_row s n writer payload applied (stats (plan_of s st n)))))

is_applied_iff : (status : Status) → (is_applied status ≡ true) ↔ (status ≡ applied)
is_applied_iff applied = (λ h. refl, λ h. refl)
is_applied_iff duplicate = (λ h. cc, λ h. cc)
is_applied_iff late = (λ h. cc, λ h. cc)
is_applied_iff held = (λ h. cc, λ h. cc)
is_applied_iff discarded = (λ h. cc, λ h. cc)

later_iff :
    (type scope : Bytes) (at : ℕ) (r : SnapshotRow)
    → (is_later type scope at r ≡ true)
      ↔ ((r.record_type ≡ type) × (r.scope ≡ scope) × (r.status ≡ applied) × (at < r.observed_at))
unfolding is_later
later_iff type scope at r = (
  λ h. (
    eq_bytes→eq r.record_type type (ground (arith, h)),
    eq_bytes→eq r.scope scope (ground (arith, h)),
    (is_applied_iff r.status).0 (ground (arith, h)),
    ground (arith, h),
  ),
  λ h. ground (
    arith,
    eq→eq_bytes r.record_type type h.0,
    eq→eq_bytes r.scope scope h.1,
    (is_applied_iff r.status).1 h.2,
    h.3,
  ),
)

Overtaken-iff :
    (st : Store) (n : Normalized)
    → (any (is_later n.record_type.name n.scope_key n.observed_at) st.snapshots ≡ true)
      ↔ Overtaken st n
Overtaken-iff st n =
    let later = is_later n.record_type.name n.scope_key n.observed_at in
    (
      λ h.
          let (r, m, e) = any_sound later st.snapshots h in
          let l = (later_iff n.record_type.name n.scope_key n.observed_at r).0 e in
          (r, m, l.0, l.1, l.2, l.3),
      λ h.
          any_complete later st.snapshots h.0 h.1
            ((later_iff n.record_type.name n.scope_key n.observed_at h.0).1 (h.2, h.3, h.4, h.5)),
    )

find_snapshot-discard_older :
    (type scope : Bytes) (at : ℕ) (id : Bytes) (row : SnapshotRow) (rows : List SnapshotRow)
    → row.id ≡ id
    → is_held row.status ≡ false
    → find_snapshot (map (discard_older type scope at) (row ∷ rows)) id ≡ some row
unfolding find_snapshot discard_older
find_snapshot-discard_older type scope at id row rows e h =
    ground (arith, e, h, eq_bytes_iff row.id id)

module _ (s : Services) where
  or_reused_stored :
      (st : Store) (n : Normalized) (writer payload : Bytes) (status : Status) (stats : Stats)
      → find_snapshot st.snapshots n.id ≡ none
      → or_reused s st
          (store_snapshot s st n (insert_request writer payload) status stats)
          (answered status stats)
        ≡ (with_snapshot s st n writer payload status stats, answered status stats)
  unfolding store_snapshot or_reused
  or_reused_stored st n writer payload status stats e = rw (store_snapshot, e, or_reused) refl

  apply_plan-with_plan :
      (st : Store) (n : Normalized) (writer payload : Bytes)
      → find_snapshot st.snapshots n.id ≡ none
      → apply_plan s st n (insert_request writer payload) (plan_of s st n)
        ≡ some (with_plan s st n writer payload)
  unfolding apply_plan store_snapshot
  apply_plan-with_plan st n writer payload e =
      let found =
        subst (λ rows. find_snapshot rows n.id ≡ none)
          (sym (written_plan-snapshots s st n (insert_request writer payload))) e in
      ground (arith, found)

  or_reused_planned :
      (st : Store) (n : Normalized) (writer payload : Bytes)
      → find_snapshot st.snapshots n.id ≡ none
      → or_reused s st
          (apply_plan s st n (insert_request writer payload) (plan_of s st n))
          (answered applied (stats (plan_of s st n)))
        ≡ (with_plan s st n writer payload, answered applied (stats (plan_of s st n)))
  unfolding or_reused
  or_reused_planned st n writer payload e =
      rw (apply_plan-with_plan st n writer payload e, or_reused) refl

  -- Whatever it comes to, the snapshot is stored with the status and the stats of the answer.
  pub Settled-stored :
      (st : Store) (n : Normalized) (writer payload : Bytes) (t : Store × Outcome)
      → Settled s st n writer payload t
      → (st' : Store) × (status : Status) × (stats : Stats) × (t ≡ (st', answered status stats))
        × (find_snapshot st'.snapshots n.id ≡ some (inserted_row s n writer payload status stats))
  unfolding find_snapshot
  Settled-stored st n writer payload t (inl (o, e)) =
      (_, late, no_stats, e, rw (eq_bytes_refl n.id) refl)
  Settled-stored st n writer payload t (inr (inl (o, h, e))) =
      (_, held, stats (plan_of s st n), e, rw (eq_bytes_refl n.id) refl)
  Settled-stored st n writer payload t (inr (inr (o, h, e, f))) =
      (_, applied, stats (plan_of s st n), e, f)

  pub apply_from_ordering-Settled :
      (st : Store) (n : Normalized) (writer payload : Bytes)
      → find_snapshot st.snapshots n.id ≡ none
      → Settled s st n writer payload (apply_from_ordering s st n (insert_request writer payload))
  unfolding apply_from_ordering
  apply_from_ordering-Settled st n writer payload e =
      let plan = plan_of s st n in
      let overtaken = Overtaken-iff st n in
      elim (Bool-cases (any (is_later n.record_type.name n.scope_key n.observed_at) st.snapshots)) [
        | inl l ↦
            rw (apply_from_ordering, l)
              (inl (overtaken.0 l, or_reused_stored st n writer payload late no_stats e))
        | inr l ↦
            let ordered : ¬ Overtaken st n = λ o. let q = overtaken.1 o in cc in
            elim (Bool-cases (s.hold plan.live_in_range (length plan.removals))) [
              | inl h ↦
                  rw (apply_from_ordering, l, h)
                    (inr (
                      inl
                        (ordered, refl, or_reused_stored st n writer payload held (stats plan) e)))
              | inr h ↦
                  rw (apply_from_ordering, l, h)
                    (inr (
                      inr (
                        ordered,
                        refl,
                        or_reused_planned st n writer payload e,
                        find_snapshot-discard_older n.record_type.name n.scope_key n.observed_at
                            n.id _ _ refl refl,
                      )))
            ]
      ]
