-- ===== src/Journal/Apply/Answers.antt =====
-- The answers of Apply of internal/journal/apply.go.
use glovebox.Prelude.{
  ◌≡◌, ◌≢◌, ◌⊎◌, refl, sym, true, false, not, ◌||◌, List, [], ◌∷◌, any, arith, Bytes, eq_bytes,
  eq_bytes_iff, is_nil, In, any_eq_iff, none, some, if◌then◌else◌, Bool-cases, Option-cases, inl,
  inr,
}
use mathlib.Core.Path.{subst}
use glovebox.Journal.Names.{Rejection}
use glovebox.Journal.Apply.Types.{
  Normalized, Status, held, duplicate, SnapshotRow, Store, Services, Outcome, answered, refused,
}
use glovebox.Journal.Apply.Serve.{
  Request, find_snapshot, is_held, lookup, banned, check_subject, apply_from_ordering, admit, apply,
  reused_rejection, erased_rejection, unknown_rejection,
}
use glovebox.Journal.Apply.Settle.{insert_request, Settled, apply_from_ordering-Settled}

is_nil_sound : (xs : Bytes) → is_nil xs ≡ true → xs ≡ []
is_nil_sound [] h = refl
is_nil_sound (x ∷ xs) h = cc

not_nil : (xs : Bytes) → is_nil xs ≡ false → xs ≢ []
not_nil [] h e = cc
not_nil (x ∷ xs) h e = cc

not_any : (x : Bytes) (xs : List Bytes) → any (eq_bytes x) xs ≡ false → ¬ In x xs
not_any x xs h m = let t = (any_eq_iff x xs).1 m in cc

-- The snapshot was stored before, by this writer for this type and scope.
abbrev pub Sender : SnapshotRow → Bytes → Normalized → Type 0
Sender r writer n =
    (r.writer ≡ writer) × (r.record_type ≡ n.record_type.name) × (r.scope ≡ n.scope_key)

abbrev pub resent : Status → Status
resent status = if is_held status then held else duplicate

module _ (s : Services) where
  abbrev pub Resent : Store → Bytes → Normalized → Store × Outcome → Type 0
  Resent st writer n t =
      (r : SnapshotRow) × (find_snapshot st.snapshots n.id ≡ some r)
      × Sender r writer n
      × (t ≡ (st, answered (resent r.status) r.stats))

  -- The id is another sender's; or the subject is erased; or it is not in the roster.
  abbrev pub RefusedFor : Store → Bytes → Normalized → Rejection → Type 0
  RefusedFor st writer n rej =
      ((r : SnapshotRow) × (find_snapshot st.snapshots n.id ≡ some r)
        × (¬ Sender r writer n)
        × (rej ≡ reused_rejection))
      ⊎ ((find_snapshot st.snapshots n.id ≡ none)
          × (n.subject ≢ [])
          × ((In n.subject st.erasures × (rej ≡ erased_rejection))
              ⊎ ((¬ In n.subject st.erasures)
                  × (s.roster_has n.subject ≡ false)
                  × (rej ≡ unknown_rejection))))

  -- The snapshot is new, and of the household or of a member who is in the roster and not erased.
  abbrev pub Admitted : Store → Normalized → Type 0
  Admitted st n =
      (find_snapshot st.snapshots n.id ≡ none)
      × ((n.subject ≡ []) ⊎ ((¬ In n.subject st.erasures) × (s.roster_has n.subject ≡ true)))

  abbrev pub Answers : Store → Bytes → Normalized → Bytes → Store × Outcome → Type 0
  Answers st writer n payload t =
      Resent st writer n t
      ⊎ (((rej : Rejection) × (t ≡ (st, refused rej)) × RefusedFor st writer n rej)
          ⊎ (Admitted st n × Settled s st n writer payload t))

  -- The comparison of lookup.
  Sender-sound :
      (r : SnapshotRow) (writer : Bytes) (n : Normalized)
      → let other =
          not (eq_bytes r.writer writer)
          || (not (eq_bytes r.record_type n.record_type.name)
              || not (eq_bytes r.scope n.scope_key)) in
        (other ≡ true → ¬ Sender r writer n) × (other ≡ false → Sender r writer n)
  Sender-sound r writer n =
      let a = eq_bytes_iff r.writer writer in
      let b = eq_bytes_iff r.record_type n.record_type.name in
      let c = eq_bytes_iff r.scope n.scope_key in
      (
        λ d h. ground (arith, d, a.1 h.0, b.1 h.1, c.1 h.2),
        λ d. (a.0 (ground (arith, d)), b.0 (ground (arith, d)), c.0 (ground (arith, d))),
      )

  -- The branches of the admission.
  admit_known :
      (st : Store) (n : Normalized) (req : Request)
      → banned st n.subject ≡ none
      → check_subject s n.subject ≡ none
      → admit s st n req ≡ apply_from_ordering s st n req
  unfolding admit
  admit_known st n req b c = rw (admit, b, c) refl

  banned_cases :
      (st : Store) (n : Normalized)
      → ((n.subject ≡ []) × (banned st n.subject ≡ none) × (check_subject s n.subject ≡ none))
        ⊎ ((n.subject ≢ [])
            × (((In n.subject st.erasures) × (banned st n.subject ≡ some erased_rejection))
                ⊎ ((¬ In n.subject st.erasures)
                    × (banned st n.subject ≡ none)
                    × (((s.roster_has n.subject ≡ true) × (check_subject s n.subject ≡ none))
                        ⊎ ((s.roster_has n.subject ≡ false)
                            × (check_subject s n.subject ≡ some unknown_rejection))))))
  unfolding banned check_subject
  banned_cases st n = elim (Bool-cases (is_nil n.subject)) [
    | inl h ↦ inl (is_nil_sound n.subject h, ground (arith, h), ground (arith, h))
    | inr h ↦ inr (
      not_nil n.subject h,
      elim (Bool-cases (any (eq_bytes n.subject) st.erasures)) [
        | inl b ↦ inl ((any_eq_iff n.subject st.erasures).0 b, rw (banned, h, b) refl)
        | inr b ↦ inr (
          not_any n.subject st.erasures b,
          ground (arith, h, b),
          elim (Bool-cases (s.roster_has n.subject)) [
            | inl k ↦ inl (k, ground (arith, h, k))
            | inr k ↦ inr (k, rw (check_subject, h, k) refl)
          ],
        )
      ],
    )
  ]

  admit-Answers :
      (st : Store) (writer payload : Bytes) (n : Normalized)
      → find_snapshot st.snapshots n.id ≡ none
      → Answers st writer n payload (admit s st n (insert_request writer payload))
  unfolding admit
  admit-Answers st writer payload n e =
      let req = insert_request writer payload in
      let settled = apply_from_ordering-Settled s st n writer payload e in
      let goal = Answers st writer n payload in
      elim (banned_cases st n) [
        | inl (z, b, c) ↦
            subst goal (sym (admit_known st n req b c)) (inr (inr ((e, inl z), settled)))
        | inr (z, inl (m, b)) ↦
            rw (admit, b) (inr (inl (erased_rejection, refl, inr (e, z, inl (m, refl)))))
        | inr (z, inr (m, b, inl (k, c))) ↦
            subst goal (sym (admit_known st n req b c)) (inr (inr ((e, inr (m, k)), settled)))
        | inr (z, inr (m, b, inr (k, c))) ↦
            rw (admit, b, c) (inr (inl (unknown_rejection, refl, inr (e, z, inr (m, k, refl)))))
      ]

  apply_new :
      (st : Store) (writer : Bytes) (n : Normalized) (payload : Bytes)
      → find_snapshot st.snapshots n.id ≡ none
      → apply s st writer n payload ≡ admit s st n (insert_request writer payload)
  unfolding apply lookup
  apply_new st writer n payload e = rw (apply, lookup, e) refl

  pub apply_stored :
      (st : Store) (writer : Bytes) (n : Normalized) (payload : Bytes) (r : SnapshotRow)
      → find_snapshot st.snapshots n.id ≡ some r
      → ((¬ Sender r writer n) × (apply s st writer n payload ≡ (st, refused reused_rejection)))
        ⊎ (Sender r writer n
            × (apply s st writer n payload ≡ (st, answered (resent r.status) r.stats)))
  unfolding apply lookup
  apply_stored st writer n payload r e =
      elim (Bool-cases (
        not (eq_bytes r.writer writer)
        || (not (eq_bytes r.record_type n.record_type.name)
            || not (eq_bytes r.scope n.scope_key)))) [
              | inl d ↦ inl ((Sender-sound r writer n).0 d, rw (apply, lookup, e, d) refl)
              | inr d ↦ inr ((Sender-sound r writer n).1 d, rw (apply, lookup, e, d) refl)
            ]

  pub apply_cases :
      (st : Store) (writer : Bytes) (n : Normalized) (payload : Bytes)
      → Answers st writer n payload (apply s st writer n payload)
  apply_cases st writer n payload = elim (Option-cases (find_snapshot st.snapshots n.id)) [
    | inl e ↦
        subst (Answers st writer n payload) (sym (apply_new st writer n payload e))
          (admit-Answers st writer payload n e)
    | inr (r, e) ↦ elim (apply_stored st writer n payload r e) [
      | inl (d, q) ↦ inr (inl (reused_rejection, q, inl (r, e, d, refl)))
      | inr (d, q) ↦ inl (r, e, d, q)
    ]
  ]
