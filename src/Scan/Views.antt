-- ===== src/Scan/Views.antt =====
-- What the passes over the views of an item find: ScanContent and the loops over the views.
use glovebox.Prelude.{
  ◌≡◌, ap, ◌∙◌, ◌⊎◌, inl, inr, List, [], ◌∷◌, ◌++◌, In, Bytes, none, some, In-append_left,
  In-append_right,
}
use glovebox.Prelude.Result.{ok, >>=-ok, ok-injective}
use glovebox.Engine.Scoring.{Signal}
use glovebox.Engine.Stream.{ScanFunc, run_all, scan_content}
use glovebox.Scan.{View, names, append_deduped, scan_views}
use glovebox.Scan.Dedup.{append_deduped_names, names-append}

-- Every name of the one list is a name of the other.
abbrev pub Extends : {N : Type 0} → List (Signal N) → List (Signal N) → Type 0
Extends xs ys = (n : Bytes) → In n (names xs) → In n (names ys)

-- The scan function succeeds on the content, and every name that it raises is among the names.
abbrev pub Reported : {E N : Type 0} → List (Signal N) → Bytes → ScanFunc E N → Type 0
Reported {N} out content m = (found : List (Signal N)) × (m content ≡ ok found) × Extends found out

module _ {E N : Type 0} where
  pub Reported-mono :
      (xs ys : List (Signal N)) (c : Bytes) (m : ScanFunc E N)
      → Extends xs ys
      → Reported xs c m
      → Reported ys c m
  Reported-mono xs ys c m e (found, p, h) = (found, p, λ n k. e n (h n k))

  run_all_reports :
      (acc : List (Signal N)) (fs : List (ScanFunc E N)) (c : Bytes) (out : List (Signal N))
      → run_all acc fs c ≡ ok out
      → Extends acc out × ((m : ScanFunc E N) → In m fs → Reported out c m)
  unfolding run_all
  run_all_reports acc [] c out h = (λ n k. rw (ok-injective h) at k, λ m k. absurd k)
  run_all_reports acc (f ∷ fs) c out h =
      let (found, p, q) = >>=-ok (f c) (λ s. run_all (acc ++ s) fs c) h in
      let ih = run_all_reports (acc ++ found) fs c out q in
      (
        λ n k. ih.0 n (rw names-append (In-append_left n (names acc) (names found) k)),
        λ m k. elim k [
          | inl e ↦ (
            found,
            ap (λ (g : ScanFunc E N). g c) e ∙ p,
            λ n a. ih.0 n (rw names-append (In-append_right n (names acc) (names found) a)),
          )
          | inr r ↦ ih.1 m r
        ],
      )

  pub scan_content_reports :
      (c : Bytes) (ms ds : List (ScanFunc E N)) (out : List (Signal N))
      → scan_content c ms ds ≡ ok out
      → (m : ScanFunc E N) → In m ms ⊎ In m ds
      → Reported out c m
  unfolding scan_content
  scan_content_reports c ms ds out h m k =
      let (mid, p, q) = >>=-ok (run_all [] ms c) (λ s. run_all s ds c) h in
      let matched = run_all_reports [] ms c mid p in
      let detected = run_all_reports mid ds c out q in
      elim k [
        | inl a ↦ Reported-mono mid out c m detected.0 (matched.1 m a)
        | inr b ↦ detected.1 m b
      ]

  -- The view that is scanned first.
  first_view_reports :
      (ms : List (ScanFunc E N)) (c c' : Bytes) (ds ds' : List (ScanFunc E N))
      (extra out : List (Signal N)) (m : ScanFunc E N)
      → scan_content c' ms ds' ≡ ok extra
      → Extends extra out
      → ◌≡◌ {A = View E N} (some c, ds) (some c', ds')
      → In m ms ⊎ In m ds
      → Reported out c m
  first_view_reports ms c c' ds ds' extra out m p x e k =
      let ec : c ≡ c' = cc (ap (λ (v : View E N). v.0) e) in
      let ed : ds ≡ ds' = ap (λ (v : View E N). v.1) e in
      Reported-mono extra out c m x (scan_content_reports c ms ds extra (rw (ec, ed) p) m k)

  pub scan_views_reports :
      (ms : List (ScanFunc E N)) (signals : List (Signal N)) (vs : List (View E N))
      (out : List (Signal N))
      → scan_views ms signals vs ≡ ok out
      → Extends signals out
        × ((c : Bytes) (ds : List (ScanFunc E N)) (m : ScanFunc E N)
            → In (some c, ds) vs
            → In m ms ⊎ In m ds
            → Reported out c m)
  unfolding scan_views
  scan_views_reports ms signals [] out h = (λ n k. rw (ok-injective h) at k, λ c ds m v k. absurd v)
  scan_views_reports ms signals ((none, ds') ∷ vs) out h =
      let ih = scan_views_reports ms signals vs out h in
      (
        ih.0,
        λ c ds m v k. elim v [
          | inl e ↦ cc (ap (λ (x : View E N). x.0) e)
          | inr r ↦ ih.1 c ds m r k
        ],
      )
  scan_views_reports ms signals ((some c', ds') ∷ vs) out h =
      let (extra, p, q) =
        >>=-ok (scan_content c' ms ds') (λ x. scan_views ms (append_deduped signals x) vs) h in
      let ih = scan_views_reports ms (append_deduped signals extra) vs out q in
      (
        λ n k. ih.0 n (append_deduped_names signals extra n (inl k)),
        λ c ds m v k. elim v [
          | inl e ↦
              first_view_reports ms c c' ds ds' extra out m p
                (λ n a. ih.0 n (append_deduped_names signals extra n (inr a))) e k
          | inr r ↦ ih.1 c ds m r k
        ],
      )
