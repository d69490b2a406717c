-- ===== src/Scan.antt =====
-- internal/scan/scan.go: one scanner over every view of an item and its metadata.
-- The views come from a preprocessing function that the scanner is given; E is the type of errors.
pub mod Dedup
pub mod Views
pub mod Coverage
pub mod Verdicts
pub mod Monotone
use glovebox.Prelude.{
  ℕ, Bool, true, false, not, ◌&&◌, ◌||◌, leb, ◌==◌, List, [], ◌∷◌, ◌++◌, map, any, all, Bytes,
  codes, eq_bytes, Option, none, some, if◌then◌else◌, is_nil,
}
use glovebox.Prelude.Result.{Result, ok, err, ◌>>=◌}
use glovebox.Prelude.Utf8.{runes?}
use glovebox.Prelude.Join.{join}
use glovebox.Prelude.Floats.{Floats}
use glovebox.Engine.Scoring.{Signal, BoostRule, ScanResult, score_signals}
use glovebox.Engine.Stream.{ScanFunc, scan_content}

-- engine.PreprocessedContent without the original bytes; a nil view is none.
pub record Preprocessed : Type 0 where
  pub normalized : Bytes
  pub raw_html : Option Bytes
  pub pre_scrub : Option Bytes
  pub folded : Option Bytes
  pub decoded : Option Bytes
  pub unescaped : Option Bytes
  pub unescaped_html : Option Bytes
  pub reordered : Option Bytes

pub record Scanner (E N : Type 0) : Type 0 where
  pub matchers : List (ScanFunc E N)
  pub detectors : List (ScanFunc E N)
  pub boost_config : List (Bytes × N)
  pub threshold : N

module _ {N : Type 0} where
  abbrev pub names : List (Signal N) → List Bytes
  names = map (λ s. s.name)

  -- The loop over the new signals: `seen` holds the names of the old ones.
  unfoldable pub unseen : List Bytes → List (Signal N) → List (Signal N)
  unseen seen [] = []
  unseen seen (s ∷ src) =
      let rest = unseen seen src in if any (eq_bytes s.name) seen then rest else s ∷ rest

  unfoldable pub append_deduped : List (Signal N) → List (Signal N) → List (Signal N)
  unfolding unseen
  append_deduped dst src = if is_nil src then dst else dst ++ unseen (names dst) src

  unfoldable pub lookup_boost : List (Bytes × N) → Bytes → Option N
  lookup_boost [] name = none
  lookup_boost ((k, v) ∷ m) name = if eq_bytes k name then some v else lookup_boost m name

  -- The loop that separates the boosts from the signals that are scored.
  unfoldable pub separate :
      List (Bytes × N) → List (Signal N) → List (Signal N) × List (BoostRule N)
  unfolding lookup_boost
  separate config [] = ([], [])
  separate config (s ∷ rest) =
      let (scored, boosts) = separate config rest in
      elim (lookup_boost config s.name) [
        | none ↦ (s ∷ scored, boosts)
        | some factor ↦ (scored, record { name = s.name; boost_factor = factor } ∷ boosts)
      ]

-- unicode.IsSpace
is_space : ℕ → Bool
is_space r =
    (leb 9 r && leb r 13)
    || r == 0x20
    || r == 0x85
    || r == 0xa0
    || r == 0x1680
    || (leb 0x2000 r && leb r 0x200a)
    || r == 0x2028
    || r == 0x2029
    || r == 0x202f
    || r == 0x205f
    || r == 0x3000

-- strings.TrimSpace(s) == ""
unfoldable pub is_blank : Bytes → Bool
unfolding is_space runes?
is_blank s = elim (runes? s) [ none ↦ false | some rs ↦ all is_space rs ]

-- The metadata fields that are not blank.
unfoldable pub present_fields : List Bytes → List Bytes
unfolding is_blank
present_fields [] = []
present_fields (f ∷ fs) = let rest = present_fields fs in if is_blank f then rest else f ∷ rest

-- A view that may be absent, with the detectors that run on it.
abbrev pub View : Type 0 → Type 0 → Type 0
View E N = Option Bytes × List (ScanFunc E N)

module _ {E N : Type 0} where
  -- The views after the normalized one and the raw HTML, in the order of the code.
  unfoldable pub extra_views : Scanner E N → Preprocessed → List (View E N)
  extra_views s pp =
      (pp.folded, [])
      ∷ (pp.decoded, [])
      ∷ (pp.unescaped, [])
      ∷ (pp.unescaped_html, [])
      ∷ (pp.reordered, [])
      ∷ (pp.pre_scrub, s.detectors)
      ∷ []

  -- Scans the views in turn, adding the signals that are new.
  unfoldable pub scan_views :
      List (ScanFunc E N) → List (Signal N) → List (View E N) → Result E (List (Signal N))
  scan_views matchers signals [] = ok signals
  scan_views matchers signals ((none, detectors) ∷ rest) = scan_views matchers signals rest
  scan_views matchers signals ((some content, detectors) ∷ rest) = do
    extra ← scan_content content matchers detectors
    scan_views matchers (append_deduped signals extra) rest

  -- The views of the metadata.
  unfoldable pub metadata_views : Preprocessed → List (View E N)
  metadata_views pp =
      (some pp.normalized, [])
      ∷ (pp.folded, [])
      ∷ (pp.decoded, [])
      ∷ (pp.unescaped, [])
      ∷ (pp.reordered, [])
      ∷ []

  -- scanMetadata
  unfoldable pub scan_metadata :
      (Bytes → Bytes → Preprocessed) → Scanner E N → List Bytes → Result E (List (Signal N))
  scan_metadata preprocess s fields =
      let pp = preprocess (join b'\n' (present_fields fields)) (codes "text/plain") in
      if is_nil (present_fields fields) then ok [] else scan_views s.matchers [] (metadata_views pp)

  -- The signals of an item, from all its views and its metadata.
  unfoldable pub collect_signals :
      (Bytes → Bytes → Preprocessed)
      → Scanner E N
      → Bytes
      → Bytes
      → List Bytes
      → Result E (List (Signal N))
  collect_signals preprocess s content content_type metadata =
      let pp = preprocess content content_type in
      do
        signals ← scan_content pp.normalized s.matchers s.detectors
        with_html ← scan_views s.matchers signals ((pp.raw_html, []) ∷ [])
        with_views ← scan_views s.matchers with_html (extra_views s pp)
        meta ← scan_metadata preprocess s metadata
        ok (append_deduped with_views meta)

module _ (f : Floats) {E : Type 0} where
  open f use {Num}

  -- The verdict over the signals that fired; the boosts multiply and are not added.
  unfoldable pub judge : Scanner E Num → List (Signal Num) → ScanResult Num
  unfolding separate score_signals
  judge s signals =
      let (scored, boosts) = separate s.boost_config signals in
      record (score_signals f scored boosts s.threshold) { signals = signals }

  unfoldable pub scan_with_metadata :
      (Bytes → Bytes → Preprocessed)
      → Scanner E Num
      → Bytes
      → Bytes
      → List Bytes
      → Result E (ScanResult Num)
  scan_with_metadata preprocess s content content_type metadata = do
    signals ← collect_signals preprocess s content content_type metadata
    ok (judge s signals)

  -- Scan
  pub scan :
      (Bytes → Bytes → Preprocessed) → Scanner E Num → Bytes → Bytes → Result E (ScanResult Num)
  unfolding scan_with_metadata
  scan preprocess s content content_type = scan_with_metadata preprocess s content content_type []
