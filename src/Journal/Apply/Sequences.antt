-- ===== src/Journal/Apply/Sequences.antt =====
-- Any sequence of calls of internal/journal/apply.go and hold.go: what writing a plan and a change of
-- the stored snapshots keep, every call keeps.
use glovebox.Prelude.{
  ℕ, ◌≡◌, refl, sym, ◌++◌, eq_bytes→eq, inl, inr, true, not, ◌&&◌, ◌||◌, List, [], ◌∷◌, All, map,
  any, arith, Bytes, eq_bytes, none, some, Option-cases, Bool-cases, length, some-injective,
}
use glovebox.Prelude.Result.{ok, Result-cases}
use mathlib.Core.Path.{subst}
use glovebox.Journal.Diff.Types.{Current, Event}
use glovebox.Journal.Diff.{Stats, stats}
use glovebox.Journal.Apply.Types.{
  Normalized, Status, applied, late, held, discarded, SnapshotRow, Store, Outcome, Services,
  RecordType,
}
use glovebox.Journal.Apply.Write.{write_plan, write_events, write_event}
use glovebox.Journal.Apply.Build.{EventSource}
use glovebox.Journal.Fields.{Assoc}
use glovebox.Journal.Apply.Serve.{
  update_status, Request, find_snapshot, lookup, banned, check_subject, store_snapshot, or_reused,
  diff_input, source_of, plan_of, apply_plan, confirming, apply_from_ordering, admit, apply,
  WriteCheck, confirm_payload, confirm_held, discard_held, Call, apply_call, confirm_call,
  discard_call, serve, serve_all, is_later, no_stats, discard_older, is_held,
}

-- A write by the plan of a snapshot.
abbrev pub written_plan : Services → Store → Normalized → Request → Store
written_plan s st n req =
    write_plan s n.record_type n.subject (source_of s n req) (diff_input s st n).current st
      (plan_of s st n)

-- The snapshot of a call, given or read back from its payload, is as asked.
abbrev pub AllowedCall : (Services → Normalized → Type 0) → Call → Type 0
AllowedCall allowed (apply_call s writer n payload) = allowed s n
AllowedCall allowed (confirm_call s may_write id) =
    (payload : Bytes) (at : ℕ) (n : Normalized) → s.validate_payload payload at ≡ ok n → allowed s n
AllowedCall allowed (discard_call id) = Unit {0}

-- The snapshot that is found has the id.
pub find_snapshot-id :
    (rows : List SnapshotRow) (id : Bytes) (r : SnapshotRow)
    → find_snapshot rows id ≡ some r
    → r.id ≡ id
unfolding find_snapshot
find_snapshot-id [] id r e = cc
find_snapshot-id (q ∷ rows) id r e = elim (Bool-cases (eq_bytes q.id id)) [
  | inl h ↦ ground (arith, e, h, eq_bytes→eq q.id id)
  | inr h ↦ find_snapshot-id rows id r (ground (arith, e, h))
]

-- A request that confirms a snapshot has one that is held.
abbrev pub HasHeld : Store → Request → Type 0
HasHeld st req = elim req.confirm_id [
  | none ↦ Unit {0}
  | some id ↦
      (r : SnapshotRow) × (find_snapshot st.snapshots id ≡ some r) × (is_held r.status ≡ true)
]

module _ (s : Services) (t : RecordType) (subject : Bytes) (src : EventSource) where
  write_events-snapshots :
      (cur : Assoc Current) (st : Store) (evs : List Event)
      → (write_events s t subject src cur st evs).snapshots ≡ st.snapshots
  unfolding write_events write_event
  write_events-snapshots cur st [] = refl
  write_events-snapshots cur st (e ∷ evs) =
      write_events-snapshots cur (write_event s t subject src cur st e) evs

-- Writing a plan leaves the snapshots alone.
pub written_plan-snapshots :
    (s : Services) (st : Store) (n : Normalized) (req : Request)
    → (written_plan s st n req).snapshots ≡ st.snapshots
unfolding write_plan
written_plan-snapshots s st n req =
    write_events-snapshots s n.record_type n.subject (source_of s n req) (diff_input s st n).current
      st ((plan_of s st n).events ++ (plan_of s st n).removals)

module _ (P : Store → Type 0) (allowed : Services → Normalized → Type 0)
    (inserted : (st : Store) (row : SnapshotRow)
      → find_snapshot st.snapshots row.id ≡ none
      → P st
      → P (record st { snapshots = row ∷ st.snapshots }))
    (decided : (st : Store) (id : Bytes) (status : Status) (stats : Stats) (r : SnapshotRow)
      → find_snapshot st.snapshots id ≡ some r
      → is_held r.status ≡ true
      → P st
      → P (record st { snapshots = map (update_status id status stats) st.snapshots }))
    (discarded_older : (st : Store) (type scope : Bytes) (at : ℕ)
      → P st
      → P (record st { snapshots = map (discard_older type scope at) st.snapshots }))
    (plan_written : (s : Services) (st : Store) (n : Normalized) (req : Request)
      → allowed s n
      → P st
      → P (written_plan s st n req)) where
  stored :
      (s : Services) (st : Store) (n : Normalized) (req : Request) (status : Status) (stats : Stats)
      (st' : Store)
      → HasHeld st req
      → P st
      → store_snapshot s st n req status stats ≡ some st'
      → P st'
  unfolding store_snapshot
  stored s st n req status stats st' h p q = elim (Option-cases req.confirm_id) [
    | inr (id, e) ↦
        let held_row = rw e at h in
        subst P (some-injective (rw (e, store_snapshot) at q))
          (decided st id status stats held_row.0 held_row.1 held_row.2 p)
    | inl e ↦ elim (Option-cases (find_snapshot st.snapshots n.id)) [
      | inl f ↦ subst P (some-injective (rw (e, f, store_snapshot) at q)) (inserted st _ f p)
      | inr (r, f) ↦ absurd (cc (rw (e, f, store_snapshot) at q))
    ]
  ]

  answered_store :
      (s : Services) (st : Store) (n : Normalized) (req : Request) (status : Status) (stats : Stats)
      (out : Outcome)
      → HasHeld st req
      → P st
      → P (or_reused s st (store_snapshot s st n req status stats) out).0
  unfolding or_reused
  answered_store s st n req status stats out h p =
      elim (Option-cases (store_snapshot s st n req status stats)) [
        | inl e ↦ rw (e, or_reused) p
        | inr (st', e) ↦ rw (e, or_reused) (stored s st n req status stats st' h p e)
      ]

  planned :
      (s : Services) (st : Store) (n : Normalized) (req : Request) (out : Outcome)
      → allowed s n
      → HasHeld st req
      → P st
      → P (or_reused s st (apply_plan s st n req (plan_of s st n)) out).0
  unfolding or_reused apply_plan
  planned s st n req out a h p =
      let w = written_plan s st n req in
      let held_still =
        subst (λ rows. HasHeld (record st { snapshots = rows }) req)
          (sym (written_plan-snapshots s st n req)) h in
      elim (Option-cases (store_snapshot s w n req applied (stats (plan_of s st n)))) [
        | inl e ↦ rw (e, apply_plan, or_reused) p
        | inr (st', e) ↦
            rw (e, apply_plan, or_reused)
              (discarded_older st' _ _ _
                (stored s w n req applied _ st' held_still (plan_written s st n req a p) e))
      ]

  ordered :
      (s : Services) (st : Store) (n : Normalized) (req : Request)
      → allowed s n
      → HasHeld st req
      → P st
      → P (apply_from_ordering s st n req).0
  unfolding apply_from_ordering
  ordered s st n req a g p =
      let plan = plan_of s st n in
      elim (Bool-cases (any (is_later n.record_type.name n.scope_key n.observed_at) st.snapshots)) [
        | inl e ↦ rw (e, apply_from_ordering) (answered_store s st n req late no_stats _ g p)
        | inr e ↦
            elim (Bool-cases
              (not (confirming s req) && s.hold plan.live_in_range (length plan.removals))) [
                | inl h ↦
                    rw (e, h, apply_from_ordering)
                      (answered_store s st n req held (stats plan) _ g p)
                | inr h ↦ rw (e, h, apply_from_ordering) (planned s st n req _ a g p)
              ]
      ]

  admitted :
      (s : Services) (st : Store) (n : Normalized) (req : Request)
      → allowed s n
      → HasHeld st req
      → P st
      → P (admit s st n req).0
  unfolding admit
  admitted s st n req a g p = elim (Option-cases (banned st n.subject)) [
    | inr (rej, e) ↦ rw (e, admit) p
    | inl e ↦ elim (Option-cases (check_subject s n.subject)) [
      | inr (rej, f) ↦ rw (e, f, admit) p
      | inl f ↦ rw (e, f, admit) (ordered s st n req a g p)
    ]
  ]

  confirmed_payload :
      (s : Services) (may_write : WriteCheck) (st : Store) (r : SnapshotRow) (n : Normalized)
      → allowed s n
      → find_snapshot st.snapshots r.id ≡ some r
      → is_held r.status ≡ true
      → P st
      → P (confirm_payload s may_write st r n).0
  unfolding confirm_payload
  confirmed_payload s may_write st r n a g h p =
      elim (Bool-cases (
        not (eq_bytes n.id r.id)
        || (not (eq_bytes n.record_type.name r.record_type)
            || not (eq_bytes n.scope_key r.scope)))) [
              | inl e ↦ rw (confirm_payload, e) p
              | inr e ↦ elim (Option-cases (may_write r.writer n.record_type n.scope_key)) [
                | inr (rej, f) ↦ rw (confirm_payload, e, f) p
                | inl f ↦ rw (confirm_payload, e, f) (admitted s st n _ a (r, g, h) p)
              ]
            ]

  confirmed :
      (s : Services) (may_write : WriteCheck) (st : Store) (id : Bytes)
      → AllowedCall allowed (confirm_call s may_write id)
      → P st
      → P (confirm_held s may_write st id).0
  unfolding confirm_held
  confirmed s may_write st id a p = elim (Option-cases (find_snapshot st.snapshots id)) [
    | inl e ↦ rw (confirm_held, e) p
    | inr (r, e) ↦ elim (Bool-cases (is_held r.status)) [
      | inr h ↦ rw (confirm_held, e, h) p
      | inl h ↦ elim (Result-cases (s.validate_payload r.payload r.received_at)) [
        | inr (rej, v) ↦ rw (confirm_held, e, h, v) p
        | inl (n, v) ↦
            rw (confirm_held, e, h, v)
              (confirmed_payload s may_write st r n (a r.payload r.received_at n v)
                (subst (λ x. find_snapshot st.snapshots x ≡ some r)
                  (sym (find_snapshot-id st.snapshots id r e)) e)
                h p)
      ]
    ]
  ]

  -- One call, and any sequence of calls.
  served : (st : Store) (c : Call) → AllowedCall allowed c → P st → P (serve st c)
  unfolding serve apply discard_held
  served st (apply_call s writer n payload) a p =
      elim (Option-cases (lookup st n.id writer n.record_type.name n.scope_key)) [
        | inr (out, e) ↦ rw (serve, apply, e) p
        | inl e ↦ rw (serve, apply, e) (admitted s st n _ a tt p)
      ]
  served st (confirm_call s may_write id) a p = confirmed s may_write st id a p
  served st (discard_call id) a p = elim (Option-cases (find_snapshot st.snapshots id)) [
    | inl e ↦ rw (serve, discard_held, e) p
    | inr (r, e) ↦ elim (Bool-cases (is_held r.status)) [
      | inr h ↦ rw (serve, discard_held, e, h) p
      | inl h ↦ rw (serve, discard_held, e, h) (decided st id discarded r.stats r e h p)
    ]
  ]

  pub serve_all_keeps :
      (st : Store) (cs : List Call) → All (AllowedCall allowed) cs → P st → P (serve_all st cs)
  unfolding serve_all
  serve_all_keeps st [] a p = p
  serve_all_keeps st (c ∷ cs) a p = serve_all_keeps (serve st c) cs a.1 (served st c a.0 p)
