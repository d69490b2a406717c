-- ===== src/Journal/Diff/Events.antt =====
-- The events that Diff of internal/journal/diff/diff.go plans, against the rows it was given.
use glovebox.Prelude.{
  ◌≡◌, ◌≢◌, ◌⊎◌, refl, sym, ◌∙◌, ap, inl, inr, Bool, true, false, List, [], ◌∷◌, ◌++◌, append_assoc,
  append-nil, In, In-append, arith, Bytes, eq_bytes, eq→eq_bytes, Option, none, some, Option-cases,
  Bool-cases, if◌then◌else◌, ltb, is_nil, not, ◌&&◌,
}
use mathlib.Core.Path.{subst}
use glovebox.Journal.Names.{RawMessage}
use glovebox.Journal.Fields.{Fields, find, sort_strings, map_keys}
use glovebox.Journal.Fields.Laws.{IsMap}
use glovebox.Journal.Diff.Types.{
  Kind, created, updated, removed, restored, Current, Event, NormRecord, Input, Plan,
}
use glovebox.Journal.Diff.{
  changes, equal_strings, compare_row, classify, plan_records, empty_plan, add_outcome, is_present,
  diff, Outcome, event, confirm, stale, plan_removals, visit_key, removal_event, counts_live,
}
use glovebox.Journal.Diff.Removals.{plan_records_removals}

-- The fields of a validated record: a map, and none of them null.
abbrev pub Present : Fields → Type 0
Present fields = (k : Bytes) (v : RawMessage) → find fields k ≡ some v → v ≢ none

abbrev pub Proper : Fields → Type 0
Proper fields = IsMap fields × Present fields

Proper-empty : Proper []
unfolding find
Proper-empty = (tt, λ k v e. cc)

-- An update lists the changes to the row of its key, and a removal has a row.
abbrev pub HasRow : Input → Kind → Event → Type 0
HasRow inp created e = Unit {0}
HasRow inp restored e = Unit {0}
HasRow inp updated e =
    (c : Current) × (find inp.current e.key ≡ some c) × (e.changed ≡ changes c.fields e.after)
HasRow inp removed e = (c : Current) × (find inp.current e.key ≡ some c)

-- An event that can be written: its values are proper, and it has the row it needs.
abbrev pub Writable : Input → Event → Type 0
Writable inp e = Proper e.after × HasRow inp e.kind e

-- Only removals share a key with a later event.
abbrev pub Separate : List Event → Type 0
Separate [] = Unit {0}
Separate (e ∷ es) = ((e.kind ≡ removed) ⊎ ((f : Event) → In f es → f.key ≢ e.key)) × Separate es

abbrev pub DistinctKeys : List NormRecord → Type 0
DistinctKeys [] = Unit {0}
DistinctKeys (r ∷ rs) = (is_present rs r.key ≡ false) × DistinctKeys rs

-- The outcome of a record: an event has its key.
abbrev Suits : Input → NormRecord → Outcome → Type 0
Suits inp r (event e) = (e.key ≡ r.key) × Writable inp e
Suits inp r (confirm k) = Unit {0}
Suits inp r (stale k) = Unit {0}

compare_row-Suits :
    (inp : Input) (r : NormRecord) (c : Current)
    → Proper r.fields
    → find inp.current r.key ≡ some c
    → Suits inp r (compare_row inp r c)
unfolding compare_row
compare_row-Suits inp r c m e =
    let moved = not (is_nil (if eq_bytes c.scope inp.scope then [] else c.scope)) in
    let aud = not (equal_strings c.audience r.audience) in
    suits_if (ltb inp.observed_at c.last_confirmed_at) _ _ tt (
      suits_if c.removed _ _ (refl, (m, tt))
        (suits_if (eq_bytes c.hash r.hash && not moved && not aud) _ _ tt (
          suits_if (is_nil (changes c.fields r.fields) && not moved && not aud) _ _ tt
            (refl, (m, (c, e, refl))))))
  where
    suits_if :
        (b : Bool) (x y : Outcome)
        → Suits inp r x
        → Suits inp r y
        → Suits inp r (if b then x else y)
    suits_if true x y p q = p
    suits_if false x y p q = q

classify-Suits : (inp : Input) (r : NormRecord) → Proper r.fields → Suits inp r (classify inp r)
unfolding classify
classify-Suits inp r m = elim (Option-cases (find inp.current r.key)) [
  | inl e ↦ rw (e, classify) (refl, (m, tt))
  | inr (c, e) ↦ rw (e, classify) (compare_row-Suits inp r c m e)
]

-- The events of the records, in order.
outcome_events : Outcome → List Event
outcome_events (event e) = e ∷ []
outcome_events (confirm k) = []
outcome_events (stale k) = []

planned_events : Input → List NormRecord → List Event
planned_events inp [] = []
planned_events inp (r ∷ rs) = outcome_events (classify inp r) ++ planned_events inp rs

add_outcome-events :
    (p : Plan) (o : Outcome) → (add_outcome p o).events ≡ p.events ++ outcome_events o
unfolding outcome_events
add_outcome-events p (event e) = refl
add_outcome-events p (confirm k) = sym (append-nil p.events)
add_outcome-events p (stale k) = sym (append-nil p.events)

plan_records-events :
    (inp : Input) (p : Plan) (rs : List NormRecord)
    → (plan_records inp p rs).events ≡ p.events ++ planned_events inp rs
unfolding plan_records planned_events
plan_records-events inp p [] = sym (append-nil p.events)
plan_records-events inp p (r ∷ rs) =
    plan_records-events inp (add_outcome p (classify inp r)) rs
    ∙ ap (λ es. es ++ planned_events inp rs) (add_outcome-events p (classify inp r))
    ∙ append_assoc p.events (outcome_events (classify inp r)) (planned_events inp rs)

-- An event of the records can be written, and has the key of one.
OfRecords : Input → List NormRecord → Event → Type 0
OfRecords inp rs e = (is_present rs e.key ≡ true) × Writable inp e

outcome-OfRecords :
    (inp : Input) (r : NormRecord) (rs : List NormRecord) (o : Outcome) (e : Event)
    → Suits inp r o
    → In e (outcome_events o)
    → (e.key ≡ r.key) × Writable inp e
unfolding outcome_events
outcome-OfRecords inp r rs (event f) e s (inl q) =
    subst (λ (x : Event). (x.key ≡ r.key) × Writable inp x) (sym q) s
outcome-OfRecords inp r rs (event f) e s (inr m) = absurd m
outcome-OfRecords inp r rs (confirm k) e s m = absurd m
outcome-OfRecords inp r rs (stale k) e s m = absurd m

planned_events-OfRecords :
    (inp : Input) (rs : List NormRecord) (e : Event)
    → ((r : NormRecord) → In r rs → Proper r.fields)
    → In e (planned_events inp rs)
    → OfRecords inp rs e
unfolding planned_events OfRecords is_present
planned_events-OfRecords inp [] e maps m = absurd m
planned_events-OfRecords inp (r ∷ rs) e maps m =
    elim (In-append e (outcome_events (classify inp r)) (planned_events inp rs) m) [
      | inl a ↦
          let t =
            outcome-OfRecords inp r rs (classify inp r) e (classify-Suits inp r (maps r (inl refl)))
              a in
          (ground (arith, eq→eq_bytes r.key e.key (sym t.0)), t.1)
      | inr b ↦
          let t = planned_events-OfRecords inp rs e (λ q h. maps q (inr h)) b in
          (ground (arith, t.0), t.1)
    ]

-- What the loop over the keys removes.
Removal : Input → Event → Type 0
Removal inp e = (e.kind ≡ removed) × (is_present inp.records e.key ≡ false) × Writable inp e

Separate-removals :
    (inp : Input) (es : List Event) → ((e : Event) → In e es → Removal inp e) → Separate es
unfolding Removal
Separate-removals inp [] h = tt
Separate-removals inp (e ∷ es) h =
    (inl (h e (inl refl)).0, Separate-removals inp es (λ f m. h f (inr m)))

Separate-outcome :
    (inp : Input) (r : NormRecord) (o : Outcome) (rest : List Event)
    → Suits inp r o
    → ((f : Event) → In f rest → f.key ≢ r.key)
    → Separate rest
    → Separate (outcome_events o ++ rest)
unfolding outcome_events
Separate-outcome inp r (event e) rest s h k = (inr (λ f m q. h f m (q ∙ s.0)), k)
Separate-outcome inp r (confirm x) rest s h k = k
Separate-outcome inp r (stale x) rest s h k = k

absent_key :
    (rs : List NormRecord) (j k : Bytes) → is_present rs j ≡ false → is_present rs k ≡ true → k ≢ j
absent_key rs j k a p q =
    let t : is_present rs j ≡ true = subst (λ x. is_present rs x ≡ true) q p in cc

planned_events-Separate :
    (inp : Input) (rs : List NormRecord) (gone : List Event)
    → DistinctKeys rs
    → ((r : NormRecord) → In r rs → Proper r.fields)
    → Separate gone
    → ((e : Event) → In e gone → is_present rs e.key ≡ false)
    → Separate (planned_events inp rs ++ gone)
unfolding planned_events OfRecords is_present
planned_events-Separate inp [] gone d maps s h = s
planned_events-Separate inp (r ∷ rs) gone d maps s h =
    let later = λ (q : NormRecord) (m : In q rs). maps q (inr m) in
    let rest = planned_events inp rs ++ gone in
    rw (append_assoc (outcome_events (classify inp r)) (planned_events inp rs) gone) (
      Separate-outcome inp r (classify inp r) rest (classify-Suits inp r (maps r (inl refl)))
        (λ f m. elim (In-append f (planned_events inp rs) gone m) [
          | inl a ↦ absent_key rs r.key f.key d.0 (planned_events-OfRecords inp rs f later a).0
          | inr b ↦ λ q. ground (arith, h f b, eq→eq_bytes r.key f.key (sym q))
        ])
        (planned_events-Separate inp rs gone d.1 later s (λ e m. ground (arith, h e m))))

module _ (date_text : Bytes → Option Bytes) where
  visit_key-events :
      (inp : Input) (p : Plan) (k : Bytes) → (visit_key date_text inp p k).events ≡ p.events
  unfolding visit_key
  visit_key-events inp p k = ground arith

  plan_removals-events :
      (inp : Input) (p : Plan) (ks : List Bytes)
      → (plan_removals date_text inp p ks).events ≡ p.events
  unfolding plan_removals
  plan_removals-events inp p [] = refl
  plan_removals-events inp p (k ∷ ks) =
      plan_removals-events inp (visit_key date_text inp p k) ks ∙ visit_key-events inp p k

  visit_key_new :
      (inp : Input) (p : Plan) (k : Bytes)
      → ((visit_key date_text inp p k).removals ≡ p.removals)
        ⊎ ((c : Current) × (find inp.current k ≡ some c)
            × (is_present inp.records k ≡ false)
            × ((visit_key date_text inp p k).removals ≡ p.removals ++ removal_event k c ∷ []))
  unfolding visit_key
  visit_key_new inp p k = elim (Option-cases (find inp.current k)) [
    | inl e ↦ inl (rw (e, visit_key) refl)
    | inr (c, e) ↦ elim (Bool-cases (counts_live date_text inp c)) [
      | inr dead ↦ inl (rw (e, visit_key, dead) refl)
      | inl live ↦ elim (Bool-cases (is_present inp.records k)) [
        | inl here ↦ inl (rw (e, visit_key, live, here) refl)
        | inr gone ↦ elim (Bool-cases (ltb inp.observed_at c.last_confirmed_at)) [
          | inl newer ↦ inl (rw (e, visit_key, live, gone, newer) refl)
          | inr older ↦ inr (c, e, gone, rw (e, visit_key, live, gone, older) refl)
        ]
      ]
    ]
  ]

  visit_key-Removal :
      (inp : Input) (p : Plan) (k : Bytes)
      → ((e : Event) → In e p.removals → Removal inp e)
      → (e : Event) → In e (visit_key date_text inp p k).removals
      → Removal inp e
  unfolding Removal
  visit_key-Removal inp p k h e m = elim (visit_key_new inp p k) [
    | inl same ↦ h e (subst (In e) same m)
    | inr (c, found, gone, more) ↦ elim (In-append e p.removals _ (subst (In e) more m)) [
      | inl a ↦ h e a
      | inr (inl q) ↦ subst (Removal inp) (sym q) (refl, gone, (Proper-empty, (c, found)))
      | inr (inr n) ↦ absurd n
    ]
  ]

  plan_removals-Removal :
      (inp : Input) (p : Plan) (ks : List Bytes)
      → ((e : Event) → In e p.removals → Removal inp e)
      → (e : Event) → In e (plan_removals date_text inp p ks).removals
      → Removal inp e
  unfolding plan_removals
  plan_removals-Removal inp p [] h e m = h e m
  plan_removals-Removal inp p (k ∷ ks) h e m =
      plan_removals-Removal inp (visit_key date_text inp p k) ks (visit_key-Removal inp p k h) e m

  diff_cases :
      (inp : Input)
      → let p = plan_records inp empty_plan inp.records in
        (diff date_text inp ≡ plan_removals date_text inp p (sort_strings (map_keys inp.current)))
        ⊎ (diff date_text inp ≡ p)
  unfolding diff
  diff_cases inp = elim (Bool-cases inp.complete) [
    | inl c ↦ inl (ground (arith, c))
    | inr c ↦ inr (ground (arith, c))
  ]

  -- The plan in two parts.
  diff_parts :
      (inp : Input)
      → ((diff date_text inp).events ≡ planned_events inp inp.records)
        × ((e : Event) → In e (diff date_text inp).removals → Removal inp e)
  diff_parts inp =
      let p = plan_records inp empty_plan inp.records in
      let events = plan_records-events inp empty_plan inp.records in
      let ks = sort_strings (map_keys inp.current) in
      let none_yet = λ (e : Event) (m : In e p.removals).
        subst (In e) (plan_records_removals date_text inp empty_plan inp.records) m in
      elim (diff_cases inp) [
        | inl c ↦ rw c (
          plan_removals-events inp p ks ∙ events,
          plan_removals-Removal inp p ks (λ e m. absurd (none_yet e m)),
        )
        | inr c ↦ rw c (events, λ e m. absurd (none_yet e m))
      ]

  -- For proper records with distinct keys: only removals share their key with a later event of
  -- the plan, and every event has the row that it needs.
  pub diff-Writable :
      (inp : Input)
      → DistinctKeys inp.records
      → ((r : NormRecord) → In r inp.records → Proper r.fields)
      → let p = diff date_text inp in
        Separate (p.events ++ p.removals)
        × ((e : Event) → In e (p.events ++ p.removals) → Writable inp e)
  unfolding Removal OfRecords
  diff-Writable inp d maps =
      let p = diff date_text inp in
      let parts = diff_parts inp in
      let es = planned_events inp inp.records in
      rw (parts.0) (
        planned_events-Separate inp inp.records p.removals d maps
            (Separate-removals inp p.removals parts.1) (λ e m. (parts.1 e m).1),
        λ e m. elim (In-append e es p.removals m) [
          | inl a ↦ (planned_events-OfRecords inp inp.records e maps a).1
          | inr b ↦ (parts.1 e b).2
        ],
      )
