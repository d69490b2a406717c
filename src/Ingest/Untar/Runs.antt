-- ===== src/Ingest/Untar/Runs.antt =====
-- What a run of internal/ingest/archives/untar.go does to the file system.
use glovebox.Prelude.{
  ◌≡◌, ◌⊎◌, refl, inl, inr, Bool, true, false, ◌||◌, ltb, leb, ◌==◌, List, [], ◌∷◌, ◌++◌, All, In,
  arith, take, Bytes, is_nil, Bool-cases, Option-cases,
}
use glovebox.Prelude.Result.{Result, ok, err, Result-cases}
use mathlib.Core.Path.{subst}
use glovebox.Ingest.Untar.{
  Entry, UntarConfig, Action, mkdir_all, chmod, open_new, write, close, Host, Run, Untarred, copied,
  probed, reads_error, leads_out, remaining, did, attempt, counted, write_file, extract_file,
  extract_entry, entry_cap, untar_from, untar, valid_typeflag, valid_untar_name, has_path_traversal,
  type_dir, type_reg, file_mode, dir_mode,
}
use glovebox.Ingest.Untar.Names.{SafeName, accepted-SafeName}

All-append : {A : Type 0} (P : A → Type 0) (xs ys : List A) → All P xs → All P ys → All P (xs ++ ys)
All-append P [] ys h k = k
All-append P (x ∷ xs) ys h k = (h.0, All-append P xs ys h.1 k)

regular :
    (e : Entry)
    → valid_typeflag e.typeflag ≡ true
    → (e.typeflag == type_dir) ≡ false
    → e.typeflag ≡ type_reg
unfolding valid_typeflag
regular e f d = ground (arith, f, d)

module _ (host : Host) (cfg : UntarConfig) where
  abbrev pub destination : Entry → Bytes
  destination e = host.join_path cfg.dest_dir (host.clean e.name)

  -- The entry is a file or directory with a safe name that resolves inside the destination.
  abbrev pub Accepted : Entry → Type 0
  Accepted e =
      SafeName e.name
      × ((e.typeflag ≡ type_reg) ⊎ (e.typeflag ≡ type_dir))
      × (leads_out (host.rel cfg.dest_dir (destination e)) ≡ false)

  -- A call for an entry: at its destination or the parent of that, for a directory or a file, with
  -- the mode 0700 or 0600.
  abbrev pub CallFor : Entry → Action → Type 0
  CallFor e (mkdir_all p) = (p ≡ destination e) ⊎ (p ≡ host.dir (destination e))
  CallFor e (chmod p m) =
      (p ≡ destination e)
      × (((e.typeflag ≡ type_dir) × (m ≡ dir_mode)) ⊎ ((e.typeflag ≡ type_reg) × (m ≡ file_mode)))
  CallFor e (open_new p) = (p ≡ destination e) × (e.typeflag ≡ type_reg)
  CallFor e (write p bytes) = (p ≡ destination e) × (e.typeflag ≡ type_reg)
  CallFor e (close p) = (p ≡ destination e) × (e.typeflag ≡ type_reg)

  abbrev pub Safe : List Entry → Action → Type 0
  Safe es a = (e : Entry) × In e es × Accepted e × CallFor e a

  -- The run of a result, stopped or not.
  abbrev reached : Result Untarred Run → Run
  reached (err u) = u.run
  reached (ok r) = r

  abbrev after_attempt : Result Run Run → Run
  after_attempt (err r) = r
  after_attempt (ok r) = r

  module _ (P : Action → Type 0) where
    attempt-All :
        (r : Run) (calls : List Action)
        → All P r.actions
        → All P calls
        → All P (after_attempt (attempt host cfg r calls)).actions
    unfolding attempt
    attempt-All r [] h k = h
    attempt-All r (a ∷ rest) h k = elim (Bool-cases (host.succeeds r.actions a)) [
      | inl e ↦
          rw (attempt, e)
            (attempt-All (did host cfg r a) rest (All-append P r.actions (a ∷ []) h (k.0, tt)) k.1)
      | inr e ↦ rw (attempt, e) h
    ]

    counted-All :
        (t : Result Run Run)
        → All P (after_attempt t).actions
        → All P (reached (counted host cfg t)).actions
    unfolding counted
    counted-All (err r) h = h
    counted-All (ok r) h = h

  write_file-All :
      (es : List Entry) (r : Run) (e : Entry)
      → In e es
      → Accepted e
      → e.typeflag ≡ type_reg
      → All (Safe es) r.actions
      → All (Safe es) (reached (write_file host cfg r e (destination e))).actions
  unfolding write_file
  write_file-All es r e m a k h =
      let dst = destination e in
      let limit = remaining host cfg r.written in
      let body = copied limit e.content in
      let probe = probed limit e.content in
      let wrote = λ (bytes : Bytes).
        All-append (Safe es) r.actions (write dst bytes ∷ close dst ∷ []) h
          ((e, m, a, (refl, k)), ((e, m, a, (refl, k)), tt)) in
      elim (Option-cases (host.short_write r.actions body)) [
        | inr (n, q) ↦ rw (write_file, q) (wrote (take n body))
        | inl q ↦ elim (Bool-cases (is_nil probe)) [
          | inr big ↦ rw (write_file, q, big) (wrote (body ++ probe))
          | inl fits ↦ elim (Bool-cases (reads_error limit e.content e.broken)) [
            | inl bad ↦ rw (write_file, q, fits, bad) (wrote (body ++ probe))
            | inr fine ↦
                elim (Bool-cases (host.succeeds (r.actions ++ write dst body ∷ []) (close dst))) [
                  | inr bad ↦ rw (write_file, q, fits, fine, bad) (wrote (body ++ probe))
                  | inl closed ↦
                      rw (write_file, q, fits, fine, closed)
                        (counted-All (Safe es) _ (
                          attempt-All (Safe es) _ (chmod dst file_mode ∷ []) (wrote (body ++ probe))
                            ((e, m, a, (refl, inr (k, refl))), tt)))
                ]
          ]
        ]
      ]

  extract_file-All :
      (es : List Entry) (r : Run) (e : Entry)
      → In e es
      → Accepted e
      → e.typeflag ≡ type_reg
      → All (Safe es) r.actions
      → All (Safe es) (reached (extract_file host cfg r e (destination e))).actions
  unfolding extract_file
  extract_file-All es r e m a k h =
      let dst = destination e in
      let calls = mkdir_all (host.dir dst) ∷ open_new dst ∷ [] in
      let opened =
        attempt-All (Safe es) r calls h ((e, m, a, inr refl), ((e, m, a, (refl, k)), tt)) in
      elim (Option-cases e.size) [
        | inl q ↦ rw (extract_file, q) h
        | inr (size, q) ↦ elim (Bool-cases (ltb cfg.upload_length size)) [
          | inl big ↦ rw (extract_file, q, big) h
          | inr fits ↦ elim (Result-cases (attempt host cfg r calls)) [
            | inr (r', t) ↦
                rw (extract_file, q, fits, t)
                  (subst (λ x. All (Safe es) (after_attempt x).actions) t opened)
            | inl (r', t) ↦
                rw (extract_file, q, fits, t)
                  (write_file-All es r' e m a k
                    (subst (λ x. All (Safe es) (after_attempt x).actions) t opened))
          ]
        ]
      ]

  -- What the rules on an entry let through.
  passed_Accepted :
      (e : Entry)
      → valid_typeflag e.typeflag ≡ true
      → valid_untar_name e.name ≡ true
      → has_path_traversal e.name e.typeflag ≡ false
      → leads_out (host.rel cfg.dest_dir (destination e)) ≡ false
      → Accepted e
  unfolding valid_typeflag
  passed_Accepted e f v t l = (
    accepted-SafeName e.name e.typeflag v t,
    elim (Bool-cases (e.typeflag == type_reg)) [
      | inl q ↦ inl (ground (arith, q))
      | inr q ↦ inr (ground (arith, f, q))
    ],
    l,
  )

  extract_entry-All :
      (es : List Entry) (r : Run) (e : Entry)
      → In e es
      → All (Safe es) r.actions
      → All (Safe es) (reached (extract_entry host cfg r e)).actions
  unfolding extract_entry
  extract_entry-All es r e m h =
      let dst = destination e in
      elim (Bool-cases (e.pax_path || e.pax_linkpath)) [
        | inl b ↦ rw (extract_entry, b) h
        | inr b ↦ elim (Bool-cases (valid_typeflag e.typeflag)) [
          | inr f ↦ rw (extract_entry, b, f) h
          | inl f ↦ elim (Bool-cases (valid_untar_name e.name)) [
            | inr v ↦ rw (extract_entry, b, f, v) h
            | inl v ↦ elim (Bool-cases (has_path_traversal e.name e.typeflag)) [
              | inl t ↦ rw (extract_entry, b, f, v, t) h
              | inr t ↦ elim (Bool-cases (leads_out (host.rel cfg.dest_dir dst))) [
                | inl l ↦ rw (extract_entry, b, f, v, t, l) h
                | inr l ↦
                    let a = passed_Accepted e f v t l in
                    elim (Bool-cases (e.typeflag == type_dir)) [
                      | inl d ↦
                          rw (extract_entry, b, f, v, t, l, d)
                            (counted-All (Safe es) _ (
                              attempt-All (Safe es) r (mkdir_all dst ∷ chmod dst dir_mode ∷ []) h (
                                (e, m, a, inl refl),
                                ((e, m, a, (refl, inl (ground (arith, d), refl))), tt),
                              )))
                      | inr d ↦
                          rw (extract_entry, b, f, v, t, l, d)
                            (extract_file-All es r e m a (regular e f d) h)
                    ]
              ]
            ]
          ]
        ]
      ]

  untar_from-All :
      (es : List Entry) (breaks : Bool) (r : Run) (rest : List Entry)
      → ((e : Entry) → In e rest → In e es)
      → All (Safe es) r.actions
      → All (Safe es) ((untar_from host cfg breaks r rest).run).actions
  unfolding untar_from
  untar_from-All es breaks r [] sub h = elim (Bool-cases (leb (entry_cap host cfg) r.entries)) [
    | inl c ↦ rw (untar_from, c) h
    | inr c ↦ elim (Bool-cases breaks) [
      | inl b ↦ rw (untar_from, c, b) h
      | inr b ↦ rw (untar_from, c, b) h
    ]
  ]
  untar_from-All es breaks r (e ∷ rest) sub h =
      let one = extract_entry-All es r e (sub e (inl refl)) h in
      elim (Bool-cases (leb (entry_cap host cfg) r.entries)) [
        | inl c ↦ rw (untar_from, c) h
        | inr c ↦ elim (Result-cases (extract_entry host cfg r e)) [
          | inr (u, q) ↦
              rw (untar_from, c, q) (subst (λ x. All (Safe es) (reached x).actions) q one)
          | inl (r', q) ↦
              rw (untar_from, c, q)
                (untar_from-All es breaks r' rest (λ x m. sub x (inr m))
                  (subst (λ x. All (Safe es) (reached x).actions) q one))
        ]
      ]

  -- Whatever the archive holds and however the file system answers, and whether the run ends well or
  -- not: every call that it made is for one of the entries, which is a regular file or a directory with
  -- a safe name that resolves inside the destination; the call is at that destination or its parent,
  -- and sets no mode but 0700 of a directory and 0600 of a file.
  pub untar-Safe :
      (breaks : Bool) (es : List Entry) → All (Safe es) ((untar host cfg breaks es).run).actions
  unfolding untar
  untar-Safe breaks es = untar_from-All es breaks _ es (λ e m. m) tt
