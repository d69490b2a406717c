-- ===== src/Journal/Diff/Counts.antt =====
-- The method Stats of internal/journal/diff/diff.go over a plan of Diff.
use glovebox.Prelude.{
  ℕ, suc, ◌+◌, ◌≡◌, refl, ◌∙◌, inl, inr, Bool, true, false, List, [], ◌∷◌, ◌++◌, length,
  length-append, arith, Bytes, Option, Option-cases,
}
use glovebox.Journal.Fields.{find, sort_strings, map_keys}
use glovebox.Journal.Diff.Types.{removed, Current, Event, NormRecord, Input, Plan}
use glovebox.Journal.Diff.{
  compare_row, classify, plan_records, empty_plan, add_outcome, diff, Outcome, event, confirm,
  stale, Stats, stats, count_events, count_event, plan_removals, visit_key,
}

abbrev no_stats : Stats
no_stats = record { created = 0; updated = 0; restored = 0; removed = 0; unchanged = 0; stale = 0 }

count_events-append :
    (es : List Event) (e : Event) (s : Stats)
    → count_events (es ++ e ∷ []) s ≡ count_event e (count_events es s)
unfolding count_events
count_events-append [] e s = refl
count_events-append (x ∷ es) e s = count_events-append es e (count_event x s)

-- The records that a plan has placed.
placed : Plan → ℕ
placed p =
    let s = count_events p.events no_stats in
    s.created + s.updated + s.restored + length p.confirms + length p.stales

removes : Outcome → Bool
removes (event e) = elim e.kind [ removed ↦ true | _ ↦ false ]
removes (confirm k) = false
removes (stale k) = false

removes-compare_row :
    (inp : Input) (r : NormRecord) (c : Current) → removes (compare_row inp r c) ≡ false
unfolding compare_row removes
removes-compare_row inp r c = ground arith

-- No outcome of a record is a removal.
removes-classify : (inp : Input) (r : NormRecord) → removes (classify inp r) ≡ false
unfolding classify removes
removes-classify inp r = elim (Option-cases (find inp.current r.key)) [
  | inl e ↦ rw (e, classify, removes)
  | inr (c, e) ↦ rw (e, classify) (removes-compare_row inp r c)
]

placed-add_outcome :
    (p : Plan) (o : Outcome) → removes o ≡ false → placed (add_outcome p o) ≡ suc (placed p)
unfolding placed removes
placed-add_outcome p (event e) h = ground (arith, h, count_events-append p.events e no_stats)
placed-add_outcome p (confirm k) h = omega (arith, length-append p.confirms (k ∷ []))
placed-add_outcome p (stale k) h = omega (arith, length-append p.stales (k ∷ []))

placed-plan_records :
    (inp : Input) (p : Plan) (rs : List NormRecord)
    → placed (plan_records inp p rs) ≡ placed p + length rs
unfolding plan_records
placed-plan_records inp p [] = omega arith
placed-plan_records inp p (r ∷ rs) = omega (
  arith,
  placed-plan_records inp (add_outcome p (classify inp r)) rs,
  placed-add_outcome p (classify inp r) (removes-classify inp r),
)

placed-empty : placed empty_plan ≡ 0
unfolding placed count_events
placed-empty = refl

module _ (date_text : Bytes → Option Bytes) where
  placed-visit_key :
      (inp : Input) (p : Plan) (k : Bytes) → placed (visit_key date_text inp p k) ≡ placed p
  unfolding placed visit_key
  placed-visit_key inp p k = ground arith

  placed-plan_removals :
      (inp : Input) (p : Plan) (ks : List Bytes)
      → placed (plan_removals date_text inp p ks) ≡ placed p
  unfolding plan_removals
  placed-plan_removals inp p [] = refl
  placed-plan_removals inp p (k ∷ ks) =
      placed-plan_removals inp (visit_key date_text inp p k) ks ∙ placed-visit_key inp p k

  placed-diff : (inp : Input) → placed (diff date_text inp) ≡ length inp.records
  unfolding diff
  placed-diff inp =
      let p = plan_records inp empty_plan inp.records in
      ground (
        arith,
        placed-plan_records inp empty_plan inp.records,
        placed-plan_removals inp p (sort_strings (map_keys inp.current)),
        placed-empty,
      )

  -- The created, updated, restored, unchanged and stale records of the stats add up to the records
  -- of the snapshot: every record is counted once.
  pub stats_account :
      (inp : Input)
      → let s = stats (diff date_text inp) in
        s.created + s.updated + s.restored + s.unchanged + s.stale ≡ length inp.records
  unfolding stats placed
  stats_account inp = placed-diff inp
