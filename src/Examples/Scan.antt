-- ===== src/Examples/Scan.antt =====
-- A scanner with one matcher: internal/scan over internal/engine.
use glovebox.Prelude.{
  ℕ, ◌≡◌, ◌↔◌, refl, inl, inr, false, List, [], ◌∷◌, ◌++◌, All, drop, Bytes, codes, eq_bytes,
  has_prefix, none, some,
}
use glovebox.Prelude.Result.{ok}
use glovebox.Prelude.Floats.{naturals, naturals-IsMonotone}
use glovebox.Engine.Scoring.{Signal, quarantine, total_score, sum_from, multiply}
use glovebox.Engine.Stream.{ScanFunc, scan_content}
use glovebox.Engine.Matcher.{find_all_offsets}
use glovebox.Engine.Matcher.Occurrences.{OccursAt, Apart, find_all_offsets_lem}
use glovebox.Scan.{
  Preprocessed, Scanner, append_deduped, collect_signals, scan_views, extra_views, scan_metadata,
  present_fields, judge,
}
use glovebox.Scan.Views.{Reported}
use glovebox.Scan.Coverage.{scan_covers_views}
use glovebox.Scan.Monotone.{more_signals_quarantine}

abbrev override : Signal ℕ
override = record { name = codes "override"; weight = 70; matched = codes "ignore all" }

abbrev encoding : Signal ℕ
encoding = record { name = codes "encoding"; weight = 2; matched = codes "%20" }

-- A matcher that fires on every content that starts with "ig".
abbrev matcher : ScanFunc ⊥ ℕ
matcher content = ok (override ∷ [])

abbrev scanner : Scanner ⊥ ℕ
scanner = record {
  matchers = matcher ∷ [];
  detectors = [];
  boost_config = (codes "encoding", 2) ∷ [];
  threshold = 100;
}

-- The plain text alone, with a folded view.
abbrev views : Bytes → Bytes → Preprocessed
views content content_type = record {
  normalized = content;
  raw_html = none;
  pre_scrub = none;
  folded = some (codes "folded");
  decoded = none;
  unescaped = none;
  unescaped_html = none;
  reordered = none;
}

find_all_offsets_lem_example :
    (ps : List ℕ) × (find_all_offsets (codes "abab") (codes "ab") ≡ some ps)
    × All (OccursAt (codes "abab") (codes "ab")) ps
    × Apart 2 0 ps
    × ((ps ≡ []) ↔ ((q : ℕ) → has_prefix (drop q (codes "abab")) (codes "ab") ≡ false))
find_all_offsets_lem_example = find_all_offsets_lem (codes "abab") (codes "ab") (λ e. cc)

collected :
    collect_signals views scanner (codes "ignore all") (codes "text/plain") [] ≡ ok (override ∷ [])
unfolding collect_signals scan_content scan_views extra_views scan_metadata present_fields
    append_deduped eq_bytes
collected = refl

scan_covers_views_example : Reported (override ∷ []) (codes "folded") matcher
scan_covers_views_example =
    scan_covers_views views scanner (codes "ignore all") (codes "text/plain") [] (override ∷ [])
      (codes "folded") matcher collected (inl refl) (inl (inr (inr (inl refl))))

held : (judge naturals scanner (override ∷ encoding ∷ [])).verdict ≡ quarantine
unfolding judge total_score sum_from eq_bytes multiply
held = refl

more_signals_quarantine_example :
    (judge naturals scanner ((override ∷ encoding ∷ []) ++ override ∷ [])).verdict ≡ quarantine
more_signals_quarantine_example =
    more_signals_quarantine naturals naturals-IsMonotone scanner (override ∷ encoding ∷ [])
      (override ∷ []) (refl, tt) held
