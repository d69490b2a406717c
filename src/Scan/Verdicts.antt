-- ===== src/Scan/Verdicts.antt =====
-- The verdict of ScanWithMetadata, internal/scan/scan.go, over ScoreSignals of
-- internal/engine/scoring.go.
use glovebox.Prelude.{
  ◌≡◌, refl, ap, ◌∙◌, inl, inr, ◌↔◌, List, [], ◌∷◌, In, Bytes, none, Bool-cases, true, false,
  Option-cases,
}
use glovebox.Prelude.Floats.{Floats}
use glovebox.Engine.Scoring.{Signal, pass, quarantine, total_score}
use glovebox.Scan.{Scanner, lookup_boost, separate, judge}

-- The signals that are scored are, in order, those with no boost factor.
separate_scored :
    {N : Type 0} (config : List (Bytes × N)) (ss : List (Signal N)) (x : Signal N)
    → In x (separate config ss).0 ↔ (In x ss × (lookup_boost config x.name ≡ none))
unfolding separate
separate_scored config [] x = (λ h. absurd h, λ h. absurd h.0)
separate_scored {N} config (s ∷ ss) x =
    let ih : In x (separate config ss).0 ↔ (In x ss × (lookup_boost config x.name ≡ none)) =
      separate_scored config ss x in
    elim (Option-cases (lookup_boost config s.name)) [
      | inl e ↦
          rw (e, separate)
            (
              λ h. elim h [
                | inl q ↦ (inl q, ap (λ (y : Signal N). lookup_boost config y.name) q ∙ e)
                | inr m ↦ (inr (ih.0 m).0, (ih.0 m).1)
              ],
              λ h. elim h.0 [ inl q ↦ inl q | inr m ↦ inr (ih.1 (m, h.1)) ],
            )
      | inr (v, e) ↦
          rw (e, separate)
            (
              λ m. (inr (ih.0 m).0, (ih.0 m).1),
              λ h. elim h.0 [
                | inl q ↦ cc (ap (λ (y : Signal N). lookup_boost config y.name) q)
                | inr m ↦ ih.1 (m, h.1)
              ],
            )
    ]

module _ (f : Floats) {E : Type 0} where
  open f use {Num, le}

  -- The result carries every signal that fired; its score is that of the signals with no boost
  -- factor under the boosts; the item is quarantined exactly when the score reaches the threshold,
  -- and passes otherwise.
  pub judge_verdict :
      (s : Scanner E Num) (signals : List (Signal Num))
      → let r = judge f s signals in
        let (scored, boosts) = separate s.boost_config signals in
        (r.signals ≡ signals)
        × (r.total_score ≡ total_score f scored boosts)
        × ((x : Signal Num)
            → In x scored ↔ (In x signals × (lookup_boost s.boost_config x.name ≡ none)))
        × ((r.verdict ≡ quarantine) ↔ (le s.threshold r.total_score ≡ true))
        × ((r.verdict ≡ pass) ↔ (le s.threshold r.total_score ≡ false))
  unfolding judge
  judge_verdict s signals =
      let (scored, boosts) = separate s.boost_config signals in
      elim (Bool-cases (le s.threshold (total_score f scored boosts))) [
        | inl e ↦ rw e (
          refl,
          refl,
          separate_scored s.boost_config signals,
          (λ h. refl, λ h. refl),
          (λ h. cc, λ h. cc),
        )
        | inr e ↦ rw e (
          refl,
          refl,
          separate_scored s.boost_config signals,
          (λ h. cc, λ h. cc),
          (λ h. refl, λ h. refl),
        )
      ]
