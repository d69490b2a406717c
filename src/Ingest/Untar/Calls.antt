-- ===== src/Ingest/Untar/Calls.antt =====
-- A run of internal/ingest/archives/untar.go that ends well unpacks the archive, whole and in order.
use glovebox.Prelude.{
  ℕ, zero, suc, ◌+◌, ◌≡◌, refl, sym, ap, ◌∙◌, inl, inr, Bool, true, false, not, ◌||◌, ltb, leb,
  ◌==◌, List, [], ◌∷◌, ◌++◌, append_assoc, append-nil, arith, length, take, drop, Bytes, is_nil,
  Option, none, some, if◌then◌else◌, Bool-cases, Option-cases,
}
use glovebox.Prelude.Result.{Result, ok, err, Result-cases, ok-injective}
use mathlib.Core.Path.{subst}
use glovebox.Ingest.Untar.{
  Entry, UntarConfig, Action, mkdir_all, chmod, open_new, write, close, Host, Run, Untarred, copied,
  probed, reads_error, leads_out, remaining, did, attempt, counted, write_file, extract_file,
  extract_entry, entry_cap, untar_from, untar, valid_typeflag, valid_untar_name, has_path_traversal,
  type_dir, file_mode, dir_mode,
}

take_whole : (n : ℕ) (xs : Bytes) → is_nil (take 1 (drop n xs)) ≡ true → take n xs ≡ xs
take_whole zero [] h = refl
take_whole zero (x ∷ xs) h = cc
take_whole (suc n) [] h = refl
take_whole (suc n) (x ∷ xs) h = ap (◌∷◌ x) (take_whole n xs h)

is_nil-eq : (xs : Bytes) → is_nil xs ≡ true → xs ≡ []
is_nil-eq [] h = refl
is_nil-eq (x ∷ xs) h = cc

double_negation : (b : Bool) → not b ≡ false → b ≡ true
double_negation true h = refl
double_negation false h = cc

-- A body of which no byte is left over was copied whole.
copied_whole :
    (limit : Option ℕ) (content : Bytes)
    → is_nil (probed limit content) ≡ true
    → copied limit content ++ probed limit content ≡ content
unfolding copied probed
copied_whole none [] h = refl
copied_whole none (c ∷ content) h = cc
copied_whole (some n) content h =
    rw (is_nil-eq (take 1 (drop n content)) h)
      (append-nil (take n content) ∙ take_whole n content h)

module _ (host : Host) (cfg : UntarConfig) where
  -- The calls that unpack an entry: a directory with its mode, or a file in its directory, with all of
  -- its body and its mode.
  abbrev pub entry_calls : Entry → List Action
  entry_calls e =
      let dst = host.join_path cfg.dest_dir (host.clean e.name) in
      if e.typeflag == type_dir
      then mkdir_all dst ∷ chmod dst dir_mode ∷ []
      else mkdir_all (host.dir dst)
        ∷ open_new dst
        ∷ write dst e.content
        ∷ close dst
        ∷ chmod dst file_mode
        ∷ []

  abbrev pub all_calls : List Entry → List Action
  all_calls [] = []
  all_calls (e ∷ es) = entry_calls e ++ all_calls es

  abbrev Adds : Run → List Action → Result Untarred Run → Type 0
  Adds r calls (err u) = (u.error ≡ none → ⊥)
  Adds r calls (ok r') = r'.actions ≡ r.actions ++ calls

  Adds-if :
      (r : Run) (calls : List Action) (b : Bool) (x y : Result Untarred Run)
      → Adds r calls x
      → (b ≡ false → Adds r calls y)
      → Adds r calls (if b then x else y)
  Adds-if r calls true x y p q = p
  Adds-if r calls false x y p q = q refl

  Adds-after :
      (r r' : Run) (first rest : List Action) (t : Result Untarred Run)
      → r'.actions ≡ r.actions ++ first
      → Adds r' rest t
      → Adds r (first ++ rest) t
  Adds-after r r' first rest (err u) q k = k
  Adds-after r r' first rest (ok u) q k =
      k ∙ ap (λ x. x ++ rest) q ∙ append_assoc r.actions first rest

  attempt_calls :
      (r : Run) (calls : List Action) (r' : Run)
      → attempt host cfg r calls ≡ ok r'
      → r'.actions ≡ r.actions ++ calls
  unfolding attempt
  attempt_calls r [] r' h =
      subst (λ (x : Run). x.actions ≡ r.actions ++ []) (ok-injective h) (sym (append-nil r.actions))
  attempt_calls r (a ∷ rest) r' h = elim (Bool-cases (host.succeeds r.actions a)) [
    | inl e ↦
        attempt_calls (did host cfg r a) rest r' (ground (arith, h, e))
        ∙ append_assoc r.actions (a ∷ []) rest
    | inr e ↦ absurd (ground (arith, h, e))
  ]

  Adds-counted :
      (r : Run) (calls : List Action) (t : Result Run Run)
      → ((r' : Run) → t ≡ ok r' → r'.actions ≡ r.actions ++ calls)
      → Adds r calls (counted host cfg t)
  unfolding counted
  Adds-counted r calls (err r') h = λ n. cc
  Adds-counted r calls (ok r') h = h r' refl

  Adds-write_file :
      (r : Run) (e : Entry) (dst : Bytes)
      → Adds r
          (write dst e.content ∷ close dst ∷ chmod dst file_mode ∷ [])
          (write_file host cfg r e dst)
  unfolding write_file
  Adds-write_file r e dst =
      let limit = remaining host cfg r.written in
      let body = copied limit e.content in
      let probe = probed limit e.content in
      elim (Option-cases (host.short_write r.actions body)) [
        | inr (n, q) ↦ rw (write_file, q) (λ n. cc)
        | inl q ↦
            let r' : Run = record r {
              written = r.written + length body + length probe;
              actions = r.actions ++ write dst (body ++ probe) ∷ close dst ∷ [];
            } in
            let ending = chmod dst file_mode ∷ [] in
            rw (write_file, q)
              (Adds-if r _ (not (is_nil probe)) _ _ (λ n. cc)
                (λ whole.
                  Adds-if r _ (reads_error limit e.content e.broken) _ _ (λ n. cc)
                    (λ fine.
                      Adds-if r _
                        (not (host.succeeds (r.actions ++ write dst body ∷ []) (close dst))) _ _
                        (λ n. cc)
                        (λ closed. Adds-counted r _ (attempt host cfg r' ending) (λ x t.
                          attempt_calls r' ending x t
                          ∙ append_assoc r.actions (write dst (body ++ probe) ∷ close dst ∷ [])
                              ending
                          ∙ ap (λ b. r.actions ++ (write dst b ∷ close dst ∷ ending))
                              (copied_whole limit e.content (double_negation _ whole)))))))
      ]

  Adds-extract_file :
      (r : Run) (e : Entry) (dst : Bytes)
      → Adds r
          (mkdir_all (host.dir dst)
            ∷ open_new dst
            ∷ write dst e.content
            ∷ close dst
            ∷ chmod dst file_mode
            ∷ [])
          (extract_file host cfg r e dst)
  unfolding extract_file
  Adds-extract_file r e dst =
      let opening = mkdir_all (host.dir dst) ∷ open_new dst ∷ [] in
      let writing = write dst e.content ∷ close dst ∷ chmod dst file_mode ∷ [] in
      elim (Option-cases e.size) [
        | inl q ↦ rw (extract_file, q) (λ n. cc)
        | inr (size, q) ↦
            rw (extract_file, q)
              (Adds-if r _ (ltb cfg.upload_length size) _ _ (λ n. cc)
                (λ fits. elim (Result-cases (attempt host cfg r opening)) [
                  | inr (r', t) ↦ rw t (λ n. cc)
                  | inl (r', t) ↦ rw t (
                      Adds-after r r' opening writing (write_file host cfg r' e dst)
                        (attempt_calls r opening r' t) (Adds-write_file r' e dst))
                ]))
      ]

  Adds-extract_entry : (r : Run) (e : Entry) → Adds r (entry_calls e) (extract_entry host cfg r e)
  unfolding extract_entry
  Adds-extract_entry r e =
      let dst = host.join_path cfg.dest_dir (host.clean e.name) in
      let folder = mkdir_all dst ∷ chmod dst dir_mode ∷ [] in
      Adds-if r _ (e.pax_path || e.pax_linkpath) _ _ (λ n. cc)
        (λ a.
          Adds-if r _ (not (valid_typeflag e.typeflag)) _ _ (λ n. cc)
            (λ b.
              Adds-if r _ (not (valid_untar_name e.name)) _ _ (λ n. cc)
                (λ c.
                  Adds-if r _ (has_path_traversal e.name e.typeflag) _ _ (λ n. cc)
                    (λ d.
                      Adds-if r _ (leads_out (host.rel cfg.dest_dir dst)) _ _ (λ n. cc)
                        (λ f. elim (Bool-cases (e.typeflag == type_dir)) [
                          | inl g ↦ rw g (
                              Adds-counted r folder (attempt host cfg r folder)
                                (attempt_calls r folder))
                          | inr g ↦ rw g (Adds-extract_file r e dst)
                        ])))))

  untar_from_calls :
      (breaks : Bool) (r : Run) (es : List Entry)
      → (untar_from host cfg breaks r es).error ≡ none
      → ((untar_from host cfg breaks r es).run).actions ≡ r.actions ++ all_calls es
  unfolding untar_from
  untar_from_calls breaks r [] n = elim (Bool-cases (leb (entry_cap host cfg) r.entries)) [
    | inl c ↦ absurd (ground (arith, n, c))
    | inr c ↦ elim (Bool-cases breaks) [
      | inl b ↦ absurd (ground (arith, n, c, b))
      | inr b ↦ rw (untar_from, c, b) (sym (append-nil r.actions))
    ]
  ]
  untar_from_calls breaks r (e ∷ es) n =
      let one = Adds-extract_entry r e in
      elim (Bool-cases (leb (entry_cap host cfg) r.entries)) [
        | inl c ↦ absurd (ground (arith, n, c))
        | inr c ↦ elim (Result-cases (extract_entry host cfg r e)) [
          | inr (u, t) ↦ absurd ((rw t at one) (ground (arith, n, c, t)))
          | inl (r', t) ↦
              let rest = untar_from_calls breaks r' es (ground (arith, n, c, t)) in
              let first = rw t at one in
              rw (untar_from, c, t)
                (rest
                  ∙ ap (λ x. x ++ all_calls es) first
                  ∙ append_assoc r.actions (entry_calls e) (all_calls es))
        ]
      ]

  -- When a run ends well, its calls are exactly those that unpack every entry of the archive, in order,
  -- each file with all of its body.
  pub untar_calls :
      (breaks : Bool) (es : List Entry)
      → (untar host cfg breaks es).error ≡ none
      → ((untar host cfg breaks es).run).actions ≡ all_calls es
  unfolding untar
  untar_calls breaks es n =
      untar_from_calls breaks (record { entries = 0; written = 0; actions = [] }) es n
