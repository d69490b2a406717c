-- ===== src/Ingest/Untar/Budget.antt =====
-- The budgets of internal/ingest/archives/untar.go: entries and bytes.
use glovebox.Prelude.{
  ℕ, zero, suc, ap, ◌+◌, ◌*◌, ◌-◌, ◌≡◌, ◌≤◌, ◌<◌, refl, ◌∙◌, inl, inr, Bool, true, false, not, ◌||◌,
  ltb, leb, ◌==◌, List, [], ◌∷◌, ◌++◌, arith, length, take, drop, Bytes, is_nil, none, some,
  if◌then◌else◌, Bool-cases, Option-cases,
}
use glovebox.Prelude.Result.{Result, ok, err, Result-cases}
use mathlib.Core.Path.{subst}
use glovebox.Ingest.Untar.{
  Entry, UntarConfig, Action, mkdir_all, chmod, open_new, write, close, Host, Run, Untarred,
  TarError, stop, copied, probed, reads_error, leads_out, remaining, did, attempt, counted,
  write_file, extract_file, extract_entry, entry_cap, untar_from, untar, valid_typeflag,
  valid_untar_name, has_path_traversal, type_dir, file_mode, dir_mode, size_factor, other,
  too_large, pax_override, typeflag_error, name_invalid, path_traversal,
}

length-take_le : (n : ℕ) (xs : Bytes) → length (take n xs) ≤ n
length-take_le zero xs = omega arith
length-take_le (suc n) [] = omega arith
length-take_le (suc n) (x ∷ xs) = omega (arith, length-take_le n xs)

length-take_all : (n : ℕ) (xs : Bytes) → length (take n xs) ≤ length xs
length-take_all zero xs = omega arith
length-take_all (suc n) [] = omega arith
length-take_all (suc n) (x ∷ xs) = omega (arith, length-take_all n xs)

length-nil : (xs : Bytes) → is_nil xs ≡ true → length xs ≡ 0
length-nil [] h = refl
length-nil (x ∷ xs) h = cc

module _ (host : Host) (cfg : UntarConfig) where
  abbrev pub byte_cap : ℕ
  byte_cap = cfg.upload_length * size_factor

  -- An entry that was unpacked keeps the bytes in the budget and counts one; a run that stops there
  -- has at most one byte more.
  abbrev Keeps : Run → Result Untarred Run → Type 0
  Keeps r (err u) =
      ((u.run).written ≤ suc byte_cap)
      × ((u.run).entries ≡ r.entries)
      × ((e : TarError) × (u.error ≡ some e))
  Keeps r (ok r') = (r'.written ≤ byte_cap) × (r'.entries ≡ suc r.entries)

  abbrev ran : Result Run Run → Run
  ran (err r) = r
  ran (ok r) = r

  attempt_kept :
      (r : Run) (calls : List Action)
      → let r' = ran (attempt host cfg r calls) in
        (r'.written ≡ r.written) × (r'.entries ≡ r.entries)
  unfolding attempt
  attempt_kept r [] = (refl, refl)
  attempt_kept r (a ∷ rest) = elim (Bool-cases (host.succeeds r.actions a)) [
    | inl e ↦ rw (attempt, e) (attempt_kept (did host cfg r a) rest)
    | inr e ↦ rw (attempt, e) (refl, refl)
  ]

  Keeps-counted :
      (r : Run) (t : Result Run Run)
      → (ran t).written ≤ byte_cap
      → (ran t).entries ≡ r.entries
      → Keeps r (counted host cfg t)
  unfolding counted
  Keeps-counted r (err r') w e = (omega (arith, w), e, (other, refl))
  Keeps-counted r (ok r') w e = (w, ap suc e)

  -- What a file adds to the bytes.
  body_fits :
      (written : ℕ) (content : Bytes)
      → written ≤ byte_cap
      → let limit = remaining host cfg written in
        (written + length (copied limit content) ≤ byte_cap) × (length (probed limit content) ≤ 1)
  unfolding remaining copied probed
  body_fits written content h =
      let cap = cfg.upload_length * size_factor in
      elim (Bool-cases (ltb cap written)) [
        | inl e ↦ absurd (ground (arith, h, e))
        | inr e ↦
            rw (remaining, e, copied, probed)
              (
                omega (arith, h, length-take_le (cap - written) content),
                length-take_le 1 (drop (cap - written) content),
              )
      ]

  Keeps-write_file :
      (r : Run) (e : Entry) (dst : Bytes)
      → r.written ≤ byte_cap
      → Keeps r (write_file host cfg r e dst)
  unfolding write_file
  Keeps-write_file r e dst h =
      let limit = remaining host cfg r.written in
      let body = copied limit e.content in
      let probe = probed limit e.content in
      let fits = body_fits r.written e.content h in
      let over : r.written + length body + length probe ≤ suc byte_cap =
        omega (arith, fits.0, fits.1) in
      elim (Option-cases (host.short_write r.actions body)) [
        | inr (n, q) ↦
            rw (write_file, q) (omega (arith, fits.0, length-take_all n body), refl, (other, refl))
        | inl q ↦ elim (Bool-cases (is_nil probe)) [
          | inr big ↦ rw (write_file, q, big) (over, refl, (too_large, refl))
          | inl none_left ↦ elim (Bool-cases (reads_error limit e.content e.broken)) [
            | inl bad ↦ rw (write_file, q, none_left, bad) (over, refl, (other, refl))
            | inr fine ↦
                elim (Bool-cases (host.succeeds (r.actions ++ write dst body ∷ []) (close dst))) [
                  | inr bad ↦ rw (write_file, q, none_left, fine, bad) (over, refl, (other, refl))
                  | inl closed ↦
                      let r' : Run = record r {
                        written = r.written + length body + length probe;
                        actions = r.actions ++ write dst (body ++ probe) ∷ close dst ∷ [];
                      } in
                      let kept = attempt_kept r' (chmod dst file_mode ∷ []) in
                      rw (write_file, q, none_left, fine, closed)
                        (Keeps-counted r (attempt host cfg r' (chmod dst file_mode ∷ []))
                          (omega (arith, kept.0, fits.0, length-nil probe none_left)) kept.1)
                ]
          ]
        ]
      ]

  -- The result of a call that failed before anything was written.
  Keeps-stop :
      (r r' : Run) (e : TarError)
      → r.written ≤ byte_cap
      → r'.written ≡ r.written
      → r'.entries ≡ r.entries
      → Keeps r (err (stop r' e))
  Keeps-stop r r' e h w q = (omega (arith, h, w), q, (e, refl))

  Keeps-moved :
      (r r' : Run) (t : Result Untarred Run) → r'.entries ≡ r.entries → Keeps r' t → Keeps r t
  Keeps-moved r r' (err u) q k = (k.0, k.1 ∙ q, k.2)
  Keeps-moved r r' (ok u) q k = (k.0, k.1 ∙ ap suc q)

  Keeps-extract_file :
      (r : Run) (e : Entry) (dst : Bytes)
      → r.written ≤ byte_cap
      → Keeps r (extract_file host cfg r e dst)
  unfolding extract_file
  Keeps-extract_file r e dst h =
      let calls = mkdir_all (host.dir dst) ∷ open_new dst ∷ [] in
      let kept = attempt_kept r calls in
      elim (Option-cases e.size) [
        | inl q ↦ rw (extract_file, q) (Keeps-stop r r too_large h refl refl)
        | inr (size, q) ↦ elim (Bool-cases (ltb cfg.upload_length size)) [
          | inl big ↦ rw (extract_file, q, big) (Keeps-stop r r too_large h refl refl)
          | inr fits ↦ elim (Result-cases (attempt host cfg r calls)) [
            | inr (r', t) ↦
                let k = rw t at kept in
                rw (extract_file, q, fits, t) (Keeps-stop r r' other h k.0 k.1)
            | inl (r', t) ↦
                let k = rw t at kept in
                rw (extract_file, q, fits, t)
                  (Keeps-moved r r' _ k.1 (Keeps-write_file r' e dst (omega (arith, h, k.0))))
          ]
        ]
      ]

  Keeps-extract_entry :
      (r : Run) (e : Entry) → r.written ≤ byte_cap → Keeps r (extract_entry host cfg r e)
  unfolding extract_entry
  Keeps-extract_entry r e h =
      let dst = host.join_path cfg.dest_dir (host.clean e.name) in
      let calls = mkdir_all dst ∷ chmod dst dir_mode ∷ [] in
      let kept = attempt_kept r calls in
      Keeps-if r (e.pax_path || e.pax_linkpath) _ _ (Keeps-stop r r pax_override h refl refl) (
        Keeps-if r (not (valid_typeflag e.typeflag)) _ _ (Keeps-stop r r typeflag_error h refl refl)
          (Keeps-if r (not (valid_untar_name e.name)) _ _ (Keeps-stop r r name_invalid h refl refl)
            (Keeps-if r (has_path_traversal e.name e.typeflag) _ _
              (Keeps-stop r r path_traversal h refl refl)
              (Keeps-if r (leads_out (host.rel cfg.dest_dir dst)) _ _
                (Keeps-stop r r path_traversal h refl refl)
                (Keeps-if r (e.typeflag == type_dir) _ _
                  (Keeps-counted r (attempt host cfg r calls) (omega (arith, h, kept.0)) kept.1)
                  (Keeps-extract_file r e dst h))))))
    where
      Keeps-if :
          (r : Run) (b : Bool) (x y : Result Untarred Run)
          → Keeps r x
          → Keeps r y
          → Keeps r (if b then x else y)
      Keeps-if r true x y p q = p
      Keeps-if r false x y p q = q

  -- The budgets of a run, from a run within them; one that ends well unpacked every entry.
  abbrev pub Within : ℕ → Untarred → Type 0
  Within n u =
      ((u.run).written ≤ suc byte_cap)
      × ((u.run).entries ≤ entry_cap host cfg)
      × (u.error ≡ none
          → ((u.run).written ≤ byte_cap)
            × ((u.run).entries ≡ n)
            × ((u.run).entries < entry_cap host cfg))

  untar_from-Within :
      (breaks : Bool) (r : Run) (es : List Entry)
      → r.written ≤ byte_cap
      → r.entries ≤ entry_cap host cfg
      → Within (r.entries + length es) (untar_from host cfg breaks r es)
  unfolding untar_from
  untar_from-Within breaks r [] w c = elim (Bool-cases (leb (entry_cap host cfg) r.entries)) [
    | inl q ↦ rw (untar_from, q) (omega (arith, w), c, λ n. cc)
    | inr q ↦ elim (Bool-cases breaks) [
      | inl b ↦ rw (untar_from, q, b) (omega (arith, w), c, λ n. cc)
      | inr b ↦
          rw (untar_from, q, b) (omega (arith, w), c, λ n. (w, omega arith, ground (arith, q)))
    ]
  ]
  untar_from-Within breaks r (e ∷ es) w c =
      let one = Keeps-extract_entry r e w in
      elim (Bool-cases (leb (entry_cap host cfg) r.entries)) [
        | inl q ↦ rw (untar_from, q) (omega (arith, w), c, λ n. cc)
        | inr q ↦ elim (Result-cases (extract_entry host cfg r e)) [
          | inr (u, t) ↦
              let k = rw t at one in
              rw (untar_from, q, t) (k.0, omega (arith, k.1, c), λ n. absurd (cc (n, (k.2).1)))
          | inl (r', t) ↦
              let k = rw t at one in
              let rest = untar_from-Within breaks r' es k.0 (ground (arith, k.1, q)) in
              rw (untar_from, q, t)
                (subst (λ n. Within n (untar_from host cfg breaks r' es)) (omega (arith, k.1)) rest)
        ]
      ]

  -- However the file system answers: a run counts at most one byte more than twice the declared length,
  -- and no more entries than the cap. When it ends well, every entry of the archive was unpacked, there
  -- are fewer of them than the cap, and at most twice the declared length was written.
  pub untar-Within :
      (breaks : Bool) (es : List Entry) → Within (length es) (untar host cfg breaks es)
  unfolding untar
  untar-Within breaks es =
      let start : Run = record { entries = 0; written = 0; actions = [] } in
      subst (λ n. Within n (untar_from host cfg breaks start es)) (omega arith)
        (untar_from-Within breaks start es (omega arith) (omega arith))
