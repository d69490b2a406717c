-- ===== src/Engine/Stream.antt =====
-- internal/engine/stream.go: every matcher, then every detector, over the whole content; and the
-- sample of a detector that opts in.
use glovebox.Prelude.{
  ℕ, ◌-◌, ◌*◌, List, [], ◌∷◌, ◌++◌, leb, length, take, drop, Bytes, if◌then◌else◌,
}
use glovebox.Prelude.Result.{Result, ok, ◌>>=◌}
use glovebox.Engine.Scoring.{Signal}

-- E is the type of errors.
abbrev pub ScanFunc : Type 0 → Type 0 → Type 0
ScanFunc E N = Bytes → Result E (List (Signal N))

module _ {E N : Type 0} where
  -- The loop over the scan functions; the signals so far come first.
  unfoldable pub run_all :
      List (Signal N) → List (ScanFunc E N) → Bytes → Result E (List (Signal N))
  run_all acc [] content = ok acc
  run_all acc (scan ∷ rest) content = do
    signals ← scan content
    run_all (acc ++ signals) rest content

  unfoldable pub scan_content :
      Bytes → List (ScanFunc E N) → List (ScanFunc E N) → Result E (List (Signal N))
  unfolding run_all
  scan_content content matchers detectors = do
    signals ← run_all [] matchers content
    run_all signals detectors content

abbrev pub default_sample_size : ℕ
default_sample_size = 64 * 1024

unfoldable pub sample_content : Bytes → ℕ → Bytes
sample_content content size =
    if leb (length content) (size * 2)
    then content
    else take size content ++ drop (length content - size) content
