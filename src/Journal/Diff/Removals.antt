-- ===== src/Journal/Diff/Removals.antt =====
-- What Diff of internal/journal/diff/diff.go plans to remove, and Guard.Hold of guard.go.
use glovebox.Prelude.{
  ◌≤◌, ◌≡◌, ◌↔◌, ◌⊎◌, refl, sym, ap, ◌∙◌, inl, inr, Bool, true, false, not, ◌&&◌, ◌||◌, ltb, List,
  [], ◌∷◌, ◌++◌, map, arith, In, In-append, In-append_left, In-append_right, Bytes, eq_bytes,
  eq_bytes→eq, eq→eq_bytes, Option, none, some, Option-cases, Bool-cases, if◌then◌else◌,
}
use glovebox.Journal.Fields.{find, get, sort_strings, map_keys}
use glovebox.Journal.Fields.Laws.{find-In, In-sort_by}
use glovebox.Journal.Diff.Types.{Current, Event, Range, NormRecord, Input, Plan}
use glovebox.Journal.Diff.{
  range_contains, counts_live, is_present, visit_key, plan_removals, plan_records, empty_plan,
  removal_event, add_outcome, classify, diff, Outcome, event, confirm, stale,
}

abbrev pub removal_keys : Plan → List Bytes
removal_keys p = map (λ (e : Event). e.key) p.removals

is_present_iff :
    (rs : List NormRecord) (k : Bytes) → (is_present rs k ≡ true) ↔ In k (map (λ r. r.key) rs)
unfolding is_present
is_present_iff [] k = (λ h. cc, λ h. absurd h)
is_present_iff (r ∷ rs) k = (
  λ h. elim (Bool-cases (eq_bytes r.key k)) [
    | inl e ↦ inl (sym (eq_bytes→eq r.key k e))
    | inr e ↦ inr ((is_present_iff rs k).0 (ground arith))
  ],
  λ h. elim h [
    | inl e ↦ ground (arith, eq→eq_bytes r.key k (sym e))
    | inr m ↦ ground (arith, (is_present_iff rs k).1 m)
  ],
)

module _ (date_text : Bytes → Option Bytes) where
  -- The row is live, of the scope, and its date is in the range if the snapshot has one.
  abbrev pub IsLive : Input → Current → Type 0
  IsLive inp c =
      (c.removed ≡ false)
      × (c.scope ≡ inp.scope)
      × ((inp.range ≡ none)
          ⊎ ((rng : Range) × (inp.range ≡ some rng)
              × (range_contains date_text rng (get c.fields rng.field) ≡ true)))

  counts_live_iff :
      (inp : Input) (c : Current) → (counts_live date_text inp c ≡ true) ↔ IsLive inp c
  unfolding counts_live
  counts_live_iff inp c = elim (Option-cases inp.range) [
    | inl e ↦ (
      λ h. (ground arith, eq_bytes→eq c.scope inp.scope (ground arith), inl e),
      λ h. ground (arith, h.0, eq→eq_bytes c.scope inp.scope h.1),
    )
    | inr (rng, e) ↦ (
      λ h. (ground arith, eq_bytes→eq c.scope inp.scope (ground arith), inr (rng, e, ground arith)),
      λ h. elim h.2 [
        | inl n ↦ absurd (ground arith)
        | inr t ↦ ground (arith, h.0, eq→eq_bytes c.scope inp.scope h.1, t.1, t.2)
      ],
    )
  ]

  -- The row of the key is to be removed.
  abbrev pub Gone : Input → Bytes → Type 0
  Gone inp k =
      (c : Current) × (find inp.current k ≡ some c)
      × IsLive inp c
      × (¬ In k (map (λ (r : NormRecord). r.key) inp.records))
      × (c.last_confirmed_at ≤ inp.observed_at)

  goes : Input → Bytes → Bool
  goes inp k = elim (find inp.current k) [
    | none ↦ false
    | some c ↦
        counts_live date_text inp c
        && not (is_present inp.records k || ltb inp.observed_at c.last_confirmed_at)
  ]

  goes_iff : (inp : Input) (k : Bytes) → (goes inp k ≡ true) ↔ Gone inp k
  unfolding goes
  goes_iff inp k = (
    λ h. elim (Option-cases (find inp.current k)) [
      | inl e ↦ cc (e, h)
      | inr (c, e) ↦ (
        c,
        e,
        (counts_live_iff inp c).0 (ground arith),
        λ m. ground (arith, (is_present_iff inp.records k).1 m),
        ground arith,
      )
    ],
    λ g. elim (Bool-cases (is_present inp.records k)) [
      | inl a ↦ absurd (g.3 ((is_present_iff inp.records k).0 a))
      | inr b ↦ ground (arith, g.1, b, (counts_live_iff inp g.0).1 g.2, g.4)
    ],
  )

  keys_append :
      (es : List Event) (e : Event)
      → map (λ (x : Event). x.key) (es ++ e ∷ []) ≡ map (λ (x : Event). x.key) es ++ e.key ∷ []
  keys_append [] e = refl
  keys_append (x ∷ es) e = ap (◌∷◌ x.key) (keys_append es e)

  visit_key_removals :
      (inp : Input) (p : Plan) (k : Bytes)
      → removal_keys (visit_key date_text inp p k)
        ≡ (if goes inp k then removal_keys p ++ k ∷ [] else removal_keys p)
  unfolding visit_key goes
  visit_key_removals inp p k = elim (Option-cases (find inp.current k)) [
    | inl e ↦ rw (e, visit_key, goes)
    | inr (c, e) ↦
        rw (e, visit_key, goes) (ground (arith, keys_append p.removals (removal_event k c)))
  ]

  plan_removals_iff :
      (inp : Input) (p : Plan) (ks : List Bytes) (j : Bytes)
      → In j (removal_keys (plan_removals date_text inp p ks))
        ↔ (In j (removal_keys p) ⊎ (In j ks × Gone inp j))
  unfolding plan_removals
  plan_removals_iff inp p [] j = (λ h. inl h, λ h. elim h [ inl a ↦ a | inr b ↦ absurd b.0 ])
  plan_removals_iff inp p (k ∷ ks) j =
      let ih = plan_removals_iff inp (visit_key date_text inp p k) ks j in
      let split = In-append j (removal_keys p) (k ∷ []) in
      elim (Bool-cases (goes inp k)) [
        | inl e ↦
            let q : removal_keys (visit_key date_text inp p k) ≡ removal_keys p ++ k ∷ [] =
              rw e at (visit_key_removals inp p k) in
            (
              λ h. elim (ih.0 h) [
                | inl a ↦ elim (split (rw q at a)) [
                  | inl b ↦ inl b
                  | inr (inl z) ↦ inr (inl z, rw z ((goes_iff inp k).0 e))
                  | inr (inr z) ↦ absurd z
                ]
                | inr b ↦ inr (inr b.0, b.1)
              ],
              λ h. ih.1 (elim h [
                | inl a ↦ inl (rw q (In-append_left j (removal_keys p) (k ∷ []) a))
                | inr (inl z, g) ↦ inl (rw q (In-append_right j (removal_keys p) (k ∷ []) (inl z)))
                | inr (inr m, g) ↦ inr (m, g)
              ]),
            )
        | inr e ↦
            let q : removal_keys (visit_key date_text inp p k) ≡ removal_keys p =
              rw e at (visit_key_removals inp p k) in
            (
              λ h. elim (ih.0 h) [ inl a ↦ inl (rw q at a) | inr b ↦ inr (inr b.0, b.1) ],
              λ h. ih.1 (elim h [
                | inl a ↦ inl (rw q a)
                | inr (inl z, g) ↦ absurd (ground (arith, (goes_iff inp k).1 (rw (sym z) g)))
                | inr (inr m, g) ↦ inr (m, g)
              ]),
            )
      ]

  pub plan_records_removals :
      (inp : Input) (p : Plan) (rs : List NormRecord)
      → (plan_records inp p rs).removals ≡ p.removals
  unfolding plan_records
  plan_records_removals inp p [] = refl
  plan_records_removals inp p (r ∷ rs) =
      plan_records_removals inp (add_outcome p (classify inp r)) rs ∙ same (classify inp r)
    where
      same : (o : Outcome) → (add_outcome p o).removals ≡ p.removals
      same (event e) = refl
      same (confirm k) = refl
      same (stale k) = refl

  planned : Input → Plan
  planned inp = plan_records inp empty_plan inp.records

  diff_complete :
      (inp : Input)
      → inp.complete ≡ true
      → diff date_text inp
        ≡ plan_removals date_text inp (planned inp) (sort_strings (map_keys inp.current))
  unfolding diff planned
  diff_complete inp e = ground arith

  diff_incomplete : (inp : Input) → inp.complete ≡ false → diff date_text inp ≡ planned inp
  unfolding diff planned
  diff_incomplete inp e = ground arith

  planned_removals : (inp : Input) → removal_keys (planned inp) ≡ []
  unfolding planned
  planned_removals inp =
      ap (map (λ (e : Event). e.key)) (plan_records_removals inp empty_plan inp.records)

  sorted_keys : (inp : Input) (k : Bytes) → Gone inp k → In k (sort_strings (map_keys inp.current))
  unfolding sort_strings
  sorted_keys inp k g = (In-sort_by _ k (map_keys inp.current)).1 (find-In inp.current k g.0 g.1)

  -- A complete snapshot plans the removal of a key exactly when its row is live, in the snapshot's
  -- scope and date range, is missing from the records and was not confirmed after the observation. An
  -- incomplete snapshot removes nothing.
  pub removals_iff :
      (inp : Input) (k : Bytes)
      → In k (removal_keys (diff date_text inp)) ↔ ((inp.complete ≡ true) × Gone inp k)
  removals_iff inp k =
      let t = plan_removals_iff inp (planned inp) (sort_strings (map_keys inp.current)) k in
      elim (Bool-cases inp.complete) [
        | inl e ↦ (
          λ h. elim (t.0 (rw (diff_complete inp e) at h)) [
            | inl a ↦ absurd (rw (planned_removals inp) at a)
            | inr b ↦ (e, b.1)
          ],
          λ g. rw (diff_complete inp e) (t.1 (inr (sorted_keys inp k g.1, g.1))),
        )
        | inr e ↦
            (λ h. absurd (rw (diff_incomplete inp e, planned_removals inp) at h), λ g. cc (e, g.0))
      ]
