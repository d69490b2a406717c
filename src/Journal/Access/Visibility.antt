-- ===== src/Journal/Access/Visibility.antt =====
-- Rows, texts, old values and notices, in internal/journal/access/access.go.
use glovebox.Prelude.{
  ◌≡◌, ◌≢◌, ◌↔◌, refl, ◌⊎◌, inl, inr, true, false, ◌&&◌, List, [], ◌∷◌, arith, In, any, any_sound,
  any_complete, any_eq_iff, ap, Bytes, eq_bytes, eq_bytes→eq, eq→eq_bytes, Bool-cases, none, some,
}
use glovebox.Journal.Names.{RawMessage}
use glovebox.Journal.Access.{
  Grant, Notice, public, is_erased, opens_row, visible, text, old_value, notices, keep_notices,
  holds_notice, verdict_pass, withheld_scan, withheld_audience,
}

-- A reader holds a grant that names the subject and one of the tokens.
abbrev pub HoldsOneOf : List Grant → Bytes → List Bytes → Type 0
HoldsOneOf gs s tokens = (g : Grant) × In g gs × (g.subject ≡ s) × In g.token tokens

-- A row of a subject that is not erased is shown exactly when its audience holds "public", or the
-- reader holds a grant for the subject with one of the audience's tokens.
pub visible_iff :
    (gs : List Grant) (s : Bytes) (aud : List Bytes)
    → is_erased s ≡ false
    → (visible gs s aud ≡ true) ↔ (In public aud ⊎ HoldsOneOf gs s aud)
unfolding visible opens_row
visible_iff gs s aud h = (
  λ v. elim (Bool-cases (any (eq_bytes public) aud)) [
    | inl p ↦ inl ((any_eq_iff public aud).0 p)
    | inr p ↦
        let t = any_sound (opens_row s aud) gs (unfold visible in ground arith) in
        inr (
          t.0,
          t.1,
          eq_bytes→eq t.0.subject s (unfold opens_row in ground (arith, t.2)),
          (any_eq_iff t.0.token aud).0 (unfold opens_row in ground (arith, t.2)),
        )
  ],
  λ o. elim o [
    | inl p ↦ ground (arith, (any_eq_iff public aud).1 p)
    | inr t ↦ ground (
      arith,
      any_complete (opens_row s aud) gs t.0 t.1
          (ground (arith, eq→eq_bytes t.0.subject s t.2, (any_eq_iff t.0.token aud).1 t.3)),
    )
  ],
)

-- With no audience before the change nobody sees the old value of a subject that is not erased.
pub old_value_no_audience :
    (gs : List Grant) (s : Bytes) (v : RawMessage)
    → is_erased s ≡ false
    → old_value gs s [] true v ≡ withheld_audience
unfolding old_value
old_value_no_audience gs s v h = elim (Bool-cases (visible gs s [])) [
  | inl e ↦ elim ((visible_iff gs s [] h).0 e) [ inl m ↦ absurd m | inr t ↦ absurd t.3 ]
  | inr e ↦ ground arith
]

-- A stored text is shown only with the verdict "pass"; null stays null.
text_fail_closed :
    (v : RawMessage) (verdict : Bytes)
    → ((text v verdict ≡ v) × ((v ≡ none) ⊎ (verdict ≡ verdict_pass)))
      ⊎ ((text v verdict ≡ withheld_scan) × (v ≢ none) × (verdict ≢ verdict_pass))
unfolding text
text_fail_closed none verdict = inl (refl, inl refl)
text_fail_closed (some v) verdict = elim (Bool-cases (eq_bytes verdict verdict_pass)) [
  | inl e ↦ inl (ground arith, inr (eq_bytes→eq verdict verdict_pass e))
  | inr e ↦ inr (ground arith, λ n. cc, λ q. ground (arith, eq→eq_bytes verdict verdict_pass q))
]

-- A reader holds a grant for the subject with the notice's token.
abbrev pub Addressed : List Grant → Bytes → Notice → Type 0
Addressed gs s n = (g : Grant) × In g gs × (g.subject ≡ s) × (g.token ≡ n.token)

holds_notice_iff :
    (gs : List Grant) (s : Bytes) (n : Notice) → (holds_notice gs s n ≡ true) ↔ Addressed gs s n
unfolding holds_notice
holds_notice_iff gs s n = (
  λ h.
      let t = any_sound (λ g. eq_bytes g.subject s && eq_bytes g.token n.token) gs h in
      (
        t.0,
        t.1,
        eq_bytes→eq t.0.subject s (ground (arith, t.2)),
        eq_bytes→eq t.0.token n.token (ground (arith, t.2)),
      ),
  λ t.
      any_complete (λ g. eq_bytes g.subject s && eq_bytes g.token n.token) gs t.0 t.1
        (ground (arith, eq→eq_bytes t.0.subject s t.2, eq→eq_bytes t.0.token n.token t.3)),
)

keep_notices_iff :
    (gs : List Grant) (s : Bytes) (ns : List Notice) (n : Notice)
    → In n (keep_notices gs s ns) ↔ (In n ns × (holds_notice gs s n ≡ true))
unfolding keep_notices
keep_notices_iff gs s [] n = (λ h. absurd h, λ h. absurd h.0)
keep_notices_iff gs s (m ∷ ns) n =
    let ih : In n (keep_notices gs s ns) ↔ (In n ns × (holds_notice gs s n ≡ true)) =
      keep_notices_iff gs s ns n in
    elim (Bool-cases (holds_notice gs s m)) [
      | inl e ↦
          rw (e, keep_notices)
            (
              λ h. elim h [ inl q ↦ (inl q, rw q e) | inr k ↦ (inr (ih.0 k).0, (ih.0 k).1) ],
              λ h. elim h.0 [ inl q ↦ inl q | inr k ↦ inr (ih.1 (k, h.1)) ],
            )
      | inr e ↦
          rw (e, keep_notices)
            (
              λ k. (inr (ih.0 k).0, (ih.0 k).1),
              λ h. elim h.0 [
                | inl q ↦ absurd (ground (arith, ap (holds_notice gs s) q, h.1))
                | inr k ↦ ih.1 (k, h.1)
              ],
            )
    ]

-- A notice reaches a reader exactly when it is one of the event's, the subject is not erased, and
-- the reader holds a grant for the subject with the notice's token.
notices_iff :
    (gs : List Grant) (s : Bytes) (ns : List Notice) (n : Notice)
    → In n (notices gs s ns) ↔ (In n ns × (is_erased s ≡ false) × Addressed gs s n)
unfolding notices
notices_iff gs s ns n = elim (Bool-cases (is_erased s)) [
  | inl e ↦ rw (e, notices) (λ h. absurd h, λ h. cc)
  | inr e ↦
      rw (e, notices)
        (
          λ h.
              let t = (keep_notices_iff gs s ns n).0 h in
              (t.0, refl, (holds_notice_iff gs s n).0 t.1),
          λ h. (keep_notices_iff gs s ns n).1 (h.0, (holds_notice_iff gs s n).1 h.2),
        )
]
