-- ===== src/Scan/Dedup.antt =====
-- The names in the result of appendDeduped, internal/scan/scan.go.
use glovebox.Prelude.{
  ◌≡◌, refl, sym, ap, ◌⊎◌, inl, inr, List, [], ◌∷◌, ◌++◌, arith, In, any, any_eq_iff, Bytes,
  eq_bytes, Bool-cases, In-append, In-append_left, In-append_right, append-nil,
}
use glovebox.Engine.Scoring.{Signal}
use glovebox.Scan.{names, unseen, append_deduped}

-- No element occurs twice.
abbrev pub Distinct : List Bytes → Type 0
Distinct [] = Unit
Distinct (n ∷ ns) = (¬ In n ns) × Distinct ns

Distinct-append :
    (xs ys : List Bytes)
    → Distinct xs
    → Distinct ys
    → ((n : Bytes) → In n ys → ¬ In n xs)
    → Distinct (xs ++ ys)
Distinct-append [] ys h k d = k
Distinct-append (x ∷ xs) ys h k d = (
  λ m. elim (In-append x xs ys m) [ inl a ↦ h.0 a | inr b ↦ d x b (inl refl) ],
  Distinct-append xs ys h.1 k (λ n m c. d n m (inr c)),
)

module _ {N : Type 0} where
  pub In-names : (s : Signal N) (ss : List (Signal N)) → In s ss → In s.name (names ss)
  In-names s [] h = h
  In-names s (x ∷ ss) (inl e) = inl (ap (λ (y : Signal N). y.name) e)
  In-names s (x ∷ ss) (inr m) = inr (In-names s ss m)

  pub names-append : (xs ys : List (Signal N)) → names (xs ++ ys) ≡ names xs ++ names ys
  names-append [] ys = refl
  names-append (x ∷ xs) ys = ap (◌∷◌ x.name) (names-append xs ys)

  unseen_covers :
      (seen : List Bytes) (src : List (Signal N)) (n : Bytes)
      → In n (names src)
      → In n seen ⊎ In n (names (unseen seen src))
  unfolding unseen
  unseen_covers seen [] n h = absurd h
  unseen_covers seen (s ∷ src) n h = elim (Bool-cases (any (eq_bytes s.name) seen)) [
    | inl e ↦
        rw (e, unseen)
          (elim h [
            | inl q ↦ inl (rw q ((any_eq_iff s.name seen).0 e))
            | inr m ↦ unseen_covers seen src n m
          ])
    | inr e ↦
        rw (e, unseen)
          (elim h [
            | inl q ↦ inr (inl q)
            | inr m ↦ elim (unseen_covers seen src n m) [ inl a ↦ inl a | inr b ↦ inr (inr b) ]
          ])
  ]

  unseen_fresh :
      (seen : List Bytes) (src : List (Signal N)) (n : Bytes)
      → In n (names (unseen seen src))
      → (In n (names src)) × (¬ In n seen)
  unfolding unseen
  unseen_fresh seen [] n h = absurd h
  unseen_fresh seen (s ∷ src) n h = elim (Bool-cases (any (eq_bytes s.name) seen)) [
    | inl e ↦ let t = unseen_fresh seen src n (rw (e, unseen) at h) in (inr t.0, t.1)
    | inr e ↦
        let h' : In n (s.name ∷ names (unseen seen src)) = rw (e, unseen) at h in
        elim h' [
          | inl q ↦ (inl q, λ m. ground (arith, (any_eq_iff s.name seen).1 (rw q at m)))
          | inr m ↦ let t = unseen_fresh seen src n m in (inr t.0, t.1)
        ]
  ]

  unseen-Distinct :
      (seen : List Bytes) (src : List (Signal N))
      → Distinct (names src)
      → Distinct (names (unseen seen src))
  unfolding unseen
  unseen-Distinct seen [] h = tt
  unseen-Distinct seen (s ∷ src) h = elim (Bool-cases (any (eq_bytes s.name) seen)) [
    | inl e ↦ rw (e, unseen) (unseen-Distinct seen src h.1)
    | inr e ↦
        rw (e, unseen) (λ m. h.0 (unseen_fresh seen src s.name m).0, unseen-Distinct seen src h.1)
  ]

  pub append_deduped_eq :
      (dst src : List (Signal N)) → append_deduped dst src ≡ dst ++ unseen (names dst) src
  unfolding append_deduped
  append_deduped_eq dst [] = sym (append-nil dst)
  append_deduped_eq dst (s ∷ src) = refl

  pub append_deduped_keeps :
      (dst src : List (Signal N)) (s : Signal N) → In s dst → In s (append_deduped dst src)
  append_deduped_keeps dst src s h =
      rw append_deduped_eq (In-append_left s dst (unseen (names dst) src) h)

  pub append_deduped_names :
      (dst src : List (Signal N)) (n : Bytes)
      → In n (names dst) ⊎ In n (names src)
      → In n (names (append_deduped dst src))
  append_deduped_names dst src n h =
      rw (append_deduped_eq, names-append)
        (elim h [
          | inl a ↦ In-append_left n (names dst) _ a
          | inr b ↦ elim (unseen_covers (names dst) src n b) [
            | inl a ↦ In-append_left n (names dst) _ a
            | inr c ↦ In-append_right n (names dst) _ c
          ]
        ])

  append_deduped-Distinct :
      (dst src : List (Signal N))
      → Distinct (names dst)
      → Distinct (names src)
      → Distinct (names (append_deduped dst src))
  append_deduped-Distinct dst src h k =
      rw (append_deduped_eq, names-append)
        (Distinct-append (names dst) _ h (unseen-Distinct (names dst) src k)
          (λ n m. (unseen_fresh (names dst) src n m).1))
