-- ===== src/Engine/Scoring.antt =====
-- internal/engine/scoring.go: signals, boosts and the verdict.
use glovebox.Prelude.{List, [], ◌∷◌, Bytes, if◌then◌else◌}
use glovebox.Prelude.Floats.{Floats}

pub record Signal (N : Type 0) : Type 0 where
  pub name : Bytes
  pub weight : N
  pub matched : Bytes

pub record BoostRule (N : Type 0) : Type 0 where
  pub name : Bytes
  pub boost_factor : N

pub data Verdict : Type 0 where
  pass quarantine reject : Verdict

pub record ScanResult (N : Type 0) : Type 0 where
  pub signals : List (Signal N)
  pub total_score : N
  pub verdict : Verdict

module _ (f : Floats) where
  open f use {Num, zero, one, add, mul, le}

  -- The loop over the boosts.
  unfoldable pub multiply : Num → List (BoostRule Num) → Num
  multiply m [] = m
  multiply m (b ∷ bs) = multiply (mul m b.boost_factor) bs

  -- The loop over the signals.
  unfoldable pub sum_from : Num → Num → List (Signal Num) → Num
  sum_from m total [] = total
  sum_from m total (s ∷ ss) = sum_from m (add total (mul s.weight m)) ss

  unfoldable pub total_score : List (Signal Num) → List (BoostRule Num) → Num
  total_score signals boosts = sum_from (multiply one boosts) zero signals

  unfoldable pub score_signals : List (Signal Num) → List (BoostRule Num) → Num → ScanResult Num
  score_signals signals boosts threshold = record {
    signals = signals;
    total_score = total_score signals boosts;
    verdict = if le threshold (total_score signals boosts) then quarantine else pass;
  }
