-- ===== src/Ingest/Uploads/Counted.antt =====
-- The counts and caps of internal/ingest/archives/store.go, and what a source learns from it.
use glovebox.Prelude.{
  ℕ, suc, ◌-◌, ◌≡◌, ◌≤◌, ◌<◌, refl, sym, ap, ◌∙◌, some-injective, inl, inr, false, leb, List, [],
  ◌∷◌, length, arith, Bytes, eq_bytes, eq_bytes_iff, eq_bytes→eq, eq_bytes_refl, eq→eq_bytes, ◌↔◌,
  ◌⊎◌, Option, none, some, if◌then◌else◌, Bool-cases, Option-cases,
}
use glovebox.Prelude.Result.{ok, err}
use mathlib.Core.Path.{subst}
use glovebox.Journal.Fields.{Assoc, find, put, delete}
use glovebox.Journal.Fields.Laws.{IsMap, find-put, find-delete, put-IsMap, delete-IsMap}
use glovebox.Ingest.Uploads.{
  UploadState, StoreConfig, Store, upload_not_found, new_store, count_of, register, create, get,
  uncount, remove, Call, create_call, remove_call, serve, serve_all,
}

-- The uploads of a source.
pub owned : Assoc UploadState → Bytes → ℕ
owned [] source = 0
owned ((id, st) ∷ uploads) source =
    let rest = owned uploads source in if eq_bytes st.source_id source then suc rest else rest

owned-put :
    (m : Assoc UploadState) (k : Bytes) (st : UploadState) (source : Bytes)
    → find m k ≡ none
    → owned (put m k st) source
      ≡ (if eq_bytes st.source_id source then suc (owned m source) else owned m source)
unfolding owned put find
owned-put [] k st source h = refl
owned-put ((j, q) ∷ m) k st source h = ground (arith, h, owned-put m k st source)

length-put :
    (m : Assoc UploadState) (k : Bytes) (st : UploadState)
    → find m k ≡ none
    → length (put m k st) ≡ suc (length m)
unfolding put find
length-put [] k st h = refl
length-put ((j, q) ∷ m) k st h = ground (arith, h, length-put m k st)

delete_missing : {V : Type 0} (m : Assoc V) (k : Bytes) → find m k ≡ none → delete m k ≡ m
unfolding delete find
delete_missing [] k h = refl
delete_missing ((j, q) ∷ m) k h = ground (arith, h, delete_missing m k)

owned-delete :
    (m : Assoc UploadState) (k : Bytes) (st : UploadState) (source : Bytes)
    → IsMap m
    → find m k ≡ some st
    → owned m source ≡ (
        let rest = owned (delete m k) source in
        if eq_bytes st.source_id source then suc rest else rest)
unfolding owned delete find
owned-delete [] k st source m h = cc
owned-delete ((j, q) ∷ m) k st source i h = elim (Bool-cases (eq_bytes j k)) [
  | inl e ↦
      let missing = subst (λ x. find m x ≡ none) (eq_bytes→eq j k e) i.0 in
      let same : q ≡ st = some-injective (ground (arith, h, e)) in
      ground (arith, e, ap (λ (x : UploadState). x.source_id) same, delete_missing m k missing)
  | inr e ↦ ground (arith, e, h, owned-delete m k st source i.1)
]

length-delete : (m : Assoc UploadState) (k : Bytes) → length (delete m k) ≤ length m
unfolding delete
length-delete [] k = omega arith
length-delete ((j, q) ∷ m) k = ground (arith, length-delete m k)

-- The uploads are a map, no more than the global cap; the counter of a source is the number of its
-- uploads, no more than the cap of a source, and there is one only for a source that has some.
pub record IsCounted (cfg : StoreConfig) (s : Store) : Type 0 where
  pub is_map : IsMap s.uploads
  pub counts : (source : Bytes) → count_of s.per_src source ≡ owned s.uploads source
  pub positive : (source : Bytes) (n : ℕ) → find s.per_src source ≡ some n → 0 < n
  pub per_source : (source : Bytes) → owned s.uploads source ≤ cfg.per_source_max_concurrent
  pub global : length s.uploads ≤ cfg.global_max_concurrent

count_of-put :
    (m : Assoc ℕ) (k source : Bytes) (n : ℕ)
    → count_of (put m k n) source ≡ (if eq_bytes k source then n else count_of m source)
unfolding count_of
count_of-put m k source n = ground (arith, find-put m k source n)

count_of-uncount :
    (m : Assoc ℕ) (k source : Bytes)
    → count_of (uncount m k) source
      ≡ (if eq_bytes k source then count_of m k - 1 else count_of m source)
unfolding uncount count_of
count_of-uncount m k source =
    ground (arith, find-delete m k source, find-put m k source (count_of m k - 1))

find-uncount :
    (m : Assoc ℕ) (k source : Bytes) (n : ℕ)
    → ((source : Bytes) (n : ℕ) → find m source ≡ some n → 0 < n)
    → find (uncount m k) source ≡ some n
    → 0 < n
unfolding uncount
find-uncount m k source n h e =
    ground (arith, e, find-delete m k source, find-put m k source (count_of m k - 1), h source n)

owned_le : (m : Assoc UploadState) (k source : Bytes) → owned (delete m k) source ≤ owned m source
unfolding owned delete
owned_le [] k source = omega arith
owned_le ((j, q) ∷ m) k source = ground (arith, owned_le m k source)

remove-IsCounted :
    (cfg : StoreConfig) (s : Store) (id : Bytes) → IsCounted cfg s → IsCounted cfg (remove s id)
unfolding remove
remove-IsCounted cfg s id c = elim (Option-cases (find s.uploads id)) [
  | inl e ↦ rw (remove, e) c
  | inr (st, e) ↦
      rw (remove, e)
        (record {
          is_map = delete-IsMap s.uploads id c.is_map;
          counts = λ source. ground (
            arith,
            count_of-uncount s.per_src st.source_id source,
            c.counts source,
            c.counts st.source_id,
            owned-delete s.uploads id st source c.is_map e,
            owned-delete s.uploads id st st.source_id c.is_map e,
            eq_bytes_iff st.source_id source,
            eq_bytes_refl st.source_id,
          );
          positive = λ source n. find-uncount s.per_src st.source_id source n c.positive;
          per_source = λ source. omega (arith, owned_le s.uploads id source, c.per_source source);
          global = omega (arith, length-delete s.uploads id, c.global);
        })
]

register-IsCounted :
    (cfg : StoreConfig) (s : Store) (st : UploadState)
    → find s.uploads st.id ≡ none
    → length s.uploads < cfg.global_max_concurrent
    → count_of s.per_src st.source_id < cfg.per_source_max_concurrent
    → IsCounted cfg s
    → IsCounted cfg (register s st)
unfolding register
register-IsCounted cfg s st e g p c = record {
  is_map = put-IsMap s.uploads st.id st c.is_map;
  counts = λ source. ground (
    arith,
    count_of-put s.per_src st.source_id source (suc (count_of s.per_src st.source_id)),
    owned-put s.uploads st.id st source e,
    c.counts source,
    c.counts st.source_id,
    eq_bytes_iff st.source_id source,
  );
  positive = λ source n q. ground (
    arith,
    q,
    find-put s.per_src st.source_id source (suc (count_of s.per_src st.source_id)),
    c.positive source n,
  );
  per_source = λ source. ground (
    arith,
    owned-put s.uploads st.id st source e,
    c.counts st.source_id,
    c.per_source source,
    p,
    eq_bytes_iff st.source_id source,
  );
  global = ground (arith, g, length-put s.uploads st.id st e);
}

create-IsCounted :
    (cfg : StoreConfig) (s : Store) (new_id : Option Bytes) (now : ℕ) (source archive_id : Bytes)
    (upload_length : ℕ)
    → IsCounted cfg s
    → IsCounted cfg (create cfg s new_id now source archive_id upload_length).0
unfolding create
create-IsCounted cfg s new_id now source archive_id upload_length c =
    elim (Bool-cases (leb cfg.global_max_concurrent (length s.uploads))) [
      | inl g ↦ rw (create, g) c
      | inr g ↦ elim (Bool-cases (leb cfg.per_source_max_concurrent (count_of s.per_src source))) [
        | inl p ↦ rw (create, g, p) c
        | inr p ↦ elim (Option-cases new_id) [
          | inl n ↦ rw (create, g, p, n) c
          | inr (id, n) ↦ elim (Option-cases (find s.uploads id)) [
            | inr (st, e) ↦ rw (create, g, p, n, e) c
            | inl e ↦
                rw (create, g, p, n, e)
                  (register-IsCounted cfg s _ e (ground (arith, g)) (ground (arith, p)) c)
          ]
        ]
      ]
    ]

served-IsCounted :
    (cfg : StoreConfig) (s : Store) (cs : List Call)
    → IsCounted cfg s
    → IsCounted cfg (serve_all cfg s cs)
unfolding serve_all serve
served-IsCounted cfg s [] c = c
served-IsCounted cfg s (create_call new_id now source archive_id upload_length ∷ cs) c =
    served-IsCounted cfg (create cfg s new_id now source archive_id upload_length).0 cs
      (create-IsCounted cfg s new_id now source archive_id upload_length c)
served-IsCounted cfg s (remove_call id ∷ cs) c =
    served-IsCounted cfg (remove s id) cs (remove-IsCounted cfg s id c)

-- After any uploads created and removed, however the ids come out: the counter of every source is the
-- number of its uploads, a source without uploads has no counter, and neither cap is passed.
pub serve_all-IsCounted :
    (cfg : StoreConfig) (cs : List Call) → IsCounted cfg (serve_all cfg new_store cs)
unfolding find count_of owned
serve_all-IsCounted cfg cs = served-IsCounted cfg new_store cs (record {
  is_map = tt;
  counts = λ source. refl;
  positive = λ source n e. cc;
  per_source = λ source. omega arith;
  global = omega arith;
})

other_source : {a b : Bytes} → eq_bytes a b ≡ false → a ≡ b → ⊥
other_source {a} {b} h e = let t = eq→eq_bytes a b e in cc

-- An upload of the source is found, and for anything else there is one error.
get_cases :
    (s : Store) (id source : Bytes)
    → ((st : UploadState) × (find s.uploads id ≡ some st)
        × (st.source_id ≡ source)
        × (get s id source ≡ ok st))
      ⊎ ((get s id source ≡ err upload_not_found)
          × ((st : UploadState) → st.source_id ≡ source → find s.uploads id ≡ some st → ⊥))
unfolding get
get_cases s id source = elim (Option-cases (find s.uploads id)) [
  | inl e ↦ inr (rw (get, e) refl, λ st o q. cc (e, q))
  | inr (st, e) ↦ elim (Bool-cases (eq_bytes st.source_id source)) [
    | inl o ↦ inl (st, e, eq_bytes→eq st.source_id source o, rw (get, e, o) refl)
    | inr o ↦ inr (
      rw (get, e, o) refl,
      λ st' o' q.
          other_source o (ap (λ (x : UploadState). x.source_id) (some-injective (sym e ∙ q)) ∙ o'),
    )
  ]
]

-- What a source is told about any id depends on its own uploads only.
pub get_private :
    (s s' : Store) (source : Bytes)
    → ((id : Bytes) (st : UploadState)
        → st.source_id ≡ source
        → (find s.uploads id ≡ some st) ↔ (find s'.uploads id ≡ some st))
    → (id : Bytes) → get s id source ≡ get s' id source
get_private s s' source agree id = elim (get_cases s id source) [
  | inl (st, e, o, q) ↦ elim (get_cases s' id source) [
    | inl (st', e', o', q') ↦
        let same : st ≡ st' = some-injective (sym ((agree id st o).0 e) ∙ e') in
        q ∙ ap ok same ∙ sym q'
    | inr (q', n) ↦ absurd (n st o ((agree id st o).0 e))
  ]
  | inr (q, n) ↦ elim (get_cases s' id source) [
    | inl (st', e', o', q') ↦ absurd (n st' o' ((agree id st' o').1 e'))
    | inr (q', n') ↦ q ∙ sym q'
  ]
]
