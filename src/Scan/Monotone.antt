-- ===== src/Scan/Monotone.antt =====
-- ScoreSignals of internal/engine/scoring.go under the separation of internal/scan/scan.go, as signals
-- are added.
use glovebox.Prelude.{
  ◌≡◌, refl, inl, inr, List, [], ◌∷◌, ◌++◌, arith, All, Bytes, some, true, Option-cases,
}
use glovebox.Prelude.Floats.{Floats, IsMonotone}
use glovebox.Engine.Scoring.{Signal, BoostRule, quarantine, total_score, sum_from, multiply}
use glovebox.Scan.{Scanner, lookup_boost, separate, judge}
use glovebox.Scan.Verdicts.{judge_verdict}

module _ {N : Type 0} where
  separate-append :
      (config : List (Bytes × N)) (xs ys : List (Signal N))
      → ((separate config (xs ++ ys)).0 ≡ (separate config xs).0 ++ (separate config ys).0)
        × ((separate config (xs ++ ys)).1 ≡ (separate config xs).1 ++ (separate config ys).1)
  unfolding separate
  separate-append config [] ys = (refl, refl)
  separate-append config (x ∷ xs) ys = ground (arith, separate-append config xs ys)

module _ (f : Floats) where
  open f use {Num, zero, one, add, mul, le}

  -- Boost factors are at least 1, as validateRuleConfig demands.
  abbrev pub BoostsUp : List (Bytes × Num) → Type 0
  BoostsUp = All (λ kv. le one kv.1 ≡ true)

  abbrev FactorsUp : List (BoostRule Num) → Type 0
  FactorsUp = All (λ b. le one b.boost_factor ≡ true)

  multiply-append :
      (m : Num) (olds bs : List (BoostRule Num))
      → multiply f m (olds ++ bs) ≡ multiply f (multiply f m olds) bs
  unfolding multiply
  multiply-append m [] bs = refl
  multiply-append m (a ∷ olds) bs = multiply-append (mul m a.boost_factor) olds bs

  sum_from-append :
      (m t : Num) (xs ys : List (Signal Num))
      → sum_from f m t (xs ++ ys) ≡ sum_from f m (sum_from f m t xs) ys
  unfolding sum_from
  sum_from-append m t [] ys = refl
  sum_from-append m t (x ∷ xs) ys = sum_from-append m (add t (mul x.weight m)) xs ys

  lookup_boost-up :
      (config : List (Bytes × Num)) (n : Bytes) (v : Num)
      → BoostsUp config
      → lookup_boost config n ≡ some v
      → le one v ≡ true
  unfolding lookup_boost
  lookup_boost-up [] n v h e = cc
  lookup_boost-up ((k, w) ∷ config) n v h e = ground (arith, h.0, lookup_boost-up config n v h.1)

  separate-up :
      (config : List (Bytes × Num)) (ss : List (Signal Num))
      → BoostsUp config
      → FactorsUp (separate config ss).1
  unfolding separate
  separate-up config [] h = tt
  separate-up config (s ∷ ss) h = elim (Option-cases (lookup_boost config s.name)) [
    | inl e ↦ rw (e, separate) (separate-up config ss h)
    | inr (v, e) ↦ rw (e, separate) (lookup_boost-up config s.name v h e, separate-up config ss h)
  ]

  module _ (laws : IsMonotone f) where
    multiply_grows :
        (m : Num) (bs : List (BoostRule Num)) → FactorsUp bs → le m (multiply f m bs) ≡ true
    unfolding multiply
    multiply_grows m [] h = laws.le_refl m
    multiply_grows m (b ∷ bs) h =
        laws.le_trans m (mul m b.boost_factor) _ (laws.le-mul m b.boost_factor h.0)
          (multiply_grows (mul m b.boost_factor) bs h.1)

    sum_from_mono :
        (m m' t t' : Num) (ss : List (Signal Num))
        → le m m' ≡ true
        → le t t' ≡ true
        → le (sum_from f m t ss) (sum_from f m' t' ss) ≡ true
    unfolding sum_from
    sum_from_mono m m' t t' [] h k = k
    sum_from_mono m m' t t' (s ∷ ss) h k =
        sum_from_mono m m' (add t (mul s.weight m)) (add t' (mul s.weight m')) ss h
          (laws.add_mono t t' _ _ k (laws.mul_mono s.weight m m' h))

    sum_from_grows : (m t : Num) (ss : List (Signal Num)) → le t (sum_from f m t ss) ≡ true
    unfolding sum_from
    sum_from_grows m t [] = laws.le_refl t
    sum_from_grows m t (s ∷ ss) =
        laws.le_trans t (add t (mul s.weight m)) _ (laws.le-add t (mul s.weight m) (laws.nonneg _))
          (sum_from_grows m (add t (mul s.weight m)) ss)

    total_score_mono :
        (xs ys : List (Signal Num)) (olds bs : List (BoostRule Num))
        → FactorsUp bs
        → le (total_score f xs olds) (total_score f (xs ++ ys) (olds ++ bs)) ≡ true
    unfolding total_score
    total_score_mono xs ys olds bs h =
        let m = multiply f one olds in
        let m' = multiply f one (olds ++ bs) in
        rw (sum_from-append m' zero xs ys) (
          laws.le_trans _ (sum_from f m' zero xs) _
            (sum_from_mono m m' zero zero xs
              (rw (multiply-append one olds bs) (multiply_grows m bs h)) (laws.le_refl zero))
            (sum_from_grows m' (sum_from f m' zero xs) ys))

    -- With boost factors of at least 1, an item that is quarantined for some signals is quarantined
    -- for these and any more, whether the new ones are scored or boost the score.
    pub more_signals_quarantine :
        {E : Type 0} (s : Scanner E Num) (signals more : List (Signal Num))
        → BoostsUp s.boost_config
        → (judge f s signals).verdict ≡ quarantine
        → (judge f s (signals ++ more)).verdict ≡ quarantine
    more_signals_quarantine s signals more up h =
        let before = judge_verdict f s signals in
        let after = judge_verdict f s (signals ++ more) in
        let split = separate-append s.boost_config signals more in
        after.3.1 (
          laws.le_trans s.threshold _ _ (before.3.0 h) (
            rw (before.1, after.1, split.0, split.1)
              (total_score_mono (separate s.boost_config signals).0 (separate s.boost_config more).0
                (separate s.boost_config signals).1 (separate s.boost_config more).1
                (separate-up s.boost_config more up))))
