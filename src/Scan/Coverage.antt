-- ===== src/Scan/Coverage.antt =====
-- The views that ScanWithMetadata of internal/scan/scan.go scans.
use glovebox.Prelude.{
  ◌≡◌, ◌≢◌, refl, sym, ap, ◌⊎◌, inl, inr, List, [], ◌∷◌, In, Bytes, Option, some, codes, is_nil,
  false,
}
use glovebox.Prelude.Result.{ok, ◌>>=◌, >>=-ok, ok-injective}
use glovebox.Prelude.Join.{join}
use glovebox.Engine.Scoring.{Signal}
use glovebox.Engine.Stream.{ScanFunc, scan_content}
use glovebox.Scan.{
  View, Preprocessed, Scanner, append_deduped, scan_views, extra_views, metadata_views,
  scan_metadata, collect_signals, present_fields,
}
use glovebox.Scan.Dedup.{append_deduped_names}
use glovebox.Scan.Views.{Extends, Reported, Reported-mono, scan_content_reports, scan_views_reports}

-- The scan-only views of an item's content.
abbrev pub IsView : Preprocessed → Bytes → Type 0
IsView pp c =
    (c ≡ pp.normalized)
    ⊎ (pp.raw_html ≡ some c)
    ⊎ (pp.folded ≡ some c)
    ⊎ (pp.decoded ≡ some c)
    ⊎ (pp.unescaped ≡ some c)
    ⊎ (pp.unescaped_html ≡ some c)
    ⊎ (pp.reordered ≡ some c)
    ⊎ (pp.pre_scrub ≡ some c)

-- The views of the metadata.
abbrev pub IsMetadataView : Preprocessed → Bytes → Type 0
IsMetadataView pp c =
    (c ≡ pp.normalized)
    ⊎ (pp.folded ≡ some c)
    ⊎ (pp.decoded ≡ some c)
    ⊎ (pp.unescaped ≡ some c)
    ⊎ (pp.reordered ≡ some c)

is_nil-false : {A : Type 0} (xs : List A) → xs ≢ [] → is_nil xs ≡ false
is_nil-false [] h = absurd (h refl)
is_nil-false (x ∷ xs) h = refl

module _ {E N : Type 0} where
  -- What a successful collection went through.
  record Passes (preprocess : Bytes → Bytes → Preprocessed) (s : Scanner E N)
      (content content_type : Bytes) (metadata : List Bytes) (out : List (Signal N)) : Type 0 where
    first : List (Signal N)
    with_html : List (Signal N)
    with_views : List (Signal N)
    meta : List (Signal N)
    pass_first :
        scan_content (preprocess content content_type).normalized s.matchers s.detectors ≡ ok first
    pass_html :
        scan_views s.matchers first (((preprocess content content_type).raw_html, []) ∷ [])
        ≡ ok with_html
    pass_views :
        scan_views s.matchers with_html (extra_views s (preprocess content content_type))
        ≡ ok with_views
    pass_meta : scan_metadata preprocess s metadata ≡ ok meta
    result : append_deduped with_views meta ≡ out

  passes :
      (preprocess : Bytes → Bytes → Preprocessed) (s : Scanner E N) (content content_type : Bytes)
      (metadata : List Bytes) (out : List (Signal N))
      → collect_signals preprocess s content content_type metadata ≡ ok out
      → Passes preprocess s content content_type metadata out
  unfolding collect_signals
  passes preprocess s content content_type metadata out h =
      let pp = preprocess content content_type in
      let (a, pa, ka) =
        >>=-ok (scan_content pp.normalized s.matchers s.detectors)
          (λ signals. do
            with_html ← scan_views s.matchers signals ((pp.raw_html, []) ∷ [])
            with_views ← scan_views s.matchers with_html (extra_views s pp)
            meta ← scan_metadata preprocess s metadata
            ok (append_deduped with_views meta))
          h in
      let (b, pb, kb) =
        >>=-ok (scan_views s.matchers a ((pp.raw_html, []) ∷ []))
          (λ with_html. do
            with_views ← scan_views s.matchers with_html (extra_views s pp)
            meta ← scan_metadata preprocess s metadata
            ok (append_deduped with_views meta))
          ka in
      let (c, pc, kc) =
        >>=-ok (scan_views s.matchers b (extra_views s pp))
          (λ with_views. do
            meta ← scan_metadata preprocess s metadata
            ok (append_deduped with_views meta))
          kb in
      let (d, pd, kd) =
        >>=-ok (scan_metadata preprocess s metadata) (λ meta. ok (append_deduped c meta)) kc in
      record {
        first = a;
        with_html = b;
        with_views = c;
        meta = d;
        pass_first = pa;
        pass_html = pb;
        pass_views = pc;
        pass_meta = pd;
        result = ok-injective kd;
      }

  -- A view that is there stands in the list as itself.
  there :
      (c : Bytes) (o : Option Bytes) (ds : List (ScanFunc E N))
      → o ≡ some c
      → ◌≡◌ {A = View E N} (some c, ds) (o, ds)
  there c o ds e = ap (λ (x : Option Bytes). (x, ds)) (sym e)

  In-metadata_views :
      (s : Scanner E N) (pp : Preprocessed) (c : Bytes)
      → IsMetadataView pp c
      → In {A = View E N} (some c, []) (metadata_views pp)
  unfolding metadata_views
  In-metadata_views s pp c (inl e) = inl (there c (some pp.normalized) [] (ap some (sym e)))
  In-metadata_views s pp c (inr (inl e)) = inr (inl (there c pp.folded [] e))
  In-metadata_views s pp c (inr (inr (inl e))) = inr (inr (inl (there c pp.decoded [] e)))
  In-metadata_views s pp c (inr (inr (inr (inl e)))) =
      inr (inr (inr (inl (there c pp.unescaped [] e))))
  In-metadata_views s pp c (inr (inr (inr (inr e)))) =
      inr (inr (inr (inr (inl (there c pp.reordered [] e)))))

  metadata_reports :
      (preprocess : Bytes → Bytes → Preprocessed) (s : Scanner E N) (metadata : List Bytes)
      (out : List (Signal N)) (c : Bytes) (m : ScanFunc E N)
      → scan_metadata preprocess s metadata ≡ ok out
      → present_fields metadata ≢ []
      → IsMetadataView (preprocess (join b'\n' (present_fields metadata)) (codes "text/plain")) c
      → In m s.matchers
      → Reported out c m
  unfolding scan_metadata
  metadata_reports preprocess s metadata out c m h ne v k =
      let pp = preprocess (join b'\n' (present_fields metadata)) (codes "text/plain") in
      let scanned : scan_views s.matchers [] (metadata_views pp) ≡ ok out =
        rw (is_nil-false (present_fields metadata) ne) at h in
      (scan_views_reports s.matchers [] (metadata_views pp) out scanned).1 c [] m
        (In-metadata_views s pp c v) (inl k)

  content_view_reports :
      (s : Scanner E N) (pp : Preprocessed) (first with_html with_views : List (Signal N))
      (c : Bytes) (m : ScanFunc E N)
      → scan_content pp.normalized s.matchers s.detectors ≡ ok first
      → scan_views s.matchers first ((pp.raw_html, []) ∷ []) ≡ ok with_html
      → scan_views s.matchers with_html (extra_views s pp) ≡ ok with_views
      → In m s.matchers
      → IsView pp c
      → Reported with_views c m
  unfolding extra_views
  content_view_reports s pp first with_html with_views c m pf ph pv k v =
      let html = scan_views_reports s.matchers first ((pp.raw_html, []) ∷ []) with_html ph in
      let extra = scan_views_reports s.matchers with_html (extra_views s pp) with_views pv in
      elim v [
        | inl e ↦
            Reported-mono first with_views c m (λ n a. extra.0 n (html.0 n a))
              (scan_content_reports c s.matchers s.detectors first (rw e pf) m (inl k))
        | inr (inl e) ↦
            Reported-mono with_html with_views c m extra.0
              (html.1 c [] m (inl (there c pp.raw_html [] e)) (inl k))
        | inr (inr (inl e)) ↦ extra.1 c [] m (inl (there c pp.folded [] e)) (inl k)
        | inr (inr (inr (inl e))) ↦ extra.1 c [] m (inr (inl (there c pp.decoded [] e))) (inl k)
        | inr (inr (inr (inr (inl e)))) ↦
            extra.1 c [] m (inr (inr (inl (there c pp.unescaped [] e)))) (inl k)
        | inr (inr (inr (inr (inr (inl e))))) ↦
            extra.1 c [] m (inr (inr (inr (inl (there c pp.unescaped_html [] e))))) (inl k)
        | inr (inr (inr (inr (inr (inr (inl e)))))) ↦
            extra.1 c [] m (inr (inr (inr (inr (inl (there c pp.reordered [] e)))))) (inl k)
        | inr (inr (inr (inr (inr (inr (inr e)))))) ↦
            extra.1 c s.detectors m
              (inr (inr (inr (inr (inr (inl (there c pp.pre_scrub s.detectors e))))))) (inl k)
      ]

  -- When the scan of an item succeeds, every matcher ran, with success, over every view of the
  -- content and, unless all metadata fields are blank, over every view of the metadata; and each
  -- name that it raised there is the name of a signal of the result.
  pub scan_covers_views :
      (preprocess : Bytes → Bytes → Preprocessed) (s : Scanner E N) (content content_type : Bytes)
      (metadata : List Bytes) (out : List (Signal N)) (c : Bytes) (m : ScanFunc E N)
      → collect_signals preprocess s content content_type metadata ≡ ok out
      → In m s.matchers
      → IsView (preprocess content content_type) c
        ⊎ ((present_fields metadata ≢ [])
            × IsMetadataView
                (preprocess (join b'\n' (present_fields metadata)) (codes "text/plain"))
                c)
      → Reported out c m
  scan_covers_views preprocess s content content_type metadata out c m h k v =
      let t = passes preprocess s content content_type metadata out h in
      let last : Extends t.with_views out =
        λ n a. rw (sym t.result) (append_deduped_names t.with_views t.meta n (inl a)) in
      elim v [
        | inl w ↦ Reported-mono t.with_views out c m last (
            content_view_reports s (preprocess content content_type) t.first t.with_html
              t.with_views c m t.pass_first t.pass_html t.pass_views k w)
        | inr w ↦
            let (found, p, e) =
              metadata_reports preprocess s metadata t.meta c m t.pass_meta w.0 w.1 k in
            (
              found,
              p,
              λ n a. rw (sym t.result) (append_deduped_names t.with_views t.meta n (inr (e n a))),
            )
      ]
