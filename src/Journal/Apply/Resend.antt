-- ===== src/Journal/Apply/Resend.antt =====
-- Sending a snapshot again: the idempotency of Apply of internal/journal/apply.go.
use glovebox.Prelude.{
  List, [], ◌⊎◌, false, ◌≡◌, refl, sym, ap, ◌∙◌, Bytes, some, if◌then◌else◌, inl, inr,
}
use mathlib.Core.Path.{subst}
use glovebox.Journal.Diff.{Stats, stats}
use glovebox.Journal.Apply.Types.{
  Normalized, Status, discarded, held, applied, late, duplicate, SnapshotRow, Store, Services,
  Outcome, answered,
}
use glovebox.Journal.Apply.Serve.{find_snapshot, is_held, apply, Call, serve_all}
use glovebox.Journal.Apply.Settle.{inserted_row, Settled-stored}
use glovebox.Journal.Apply.Final.{serve_all-find_snapshot}
use glovebox.Journal.Apply.Answers.{Sender, Answers, resent, apply_cases, apply_stored}

resent_twice : (x : Status) → resent (resent x) ≡ resent x
resent_twice applied = refl
resent_twice duplicate = refl
resent_twice late = refl
resent_twice held = refl
resent_twice discarded = refl

answered_parts : (a b : Status) (x y : Stats) → answered a x ≡ answered b y → (a ≡ b) × (x ≡ y)
answered_parts a b x y h = (cc h, cc h)

cong_answered : {a b : Status} {x y : Stats} → a ≡ b → x ≡ y → answered a x ≡ answered b y
cong_answered p q = cc

module _ (s : Services) where
  -- What an answered snapshot is stored as.
  stored_after :
      (st : Store) (writer : Bytes) (n : Normalized) (payload : Bytes) (status : Status)
      (stats : Stats) (t : Store × Outcome)
      → Answers s st writer n payload t
      → t.1 ≡ answered status stats
      → (r : SnapshotRow) × (find_snapshot (t.0).snapshots n.id ≡ some r)
        × Sender r writer n
        × (resent r.status ≡ resent status)
        × (r.stats ≡ stats)
  stored_after st writer n payload status stats t a h = elim a [
    | inl (r, e, d, q) ↦
        let parts = answered_parts _ _ _ _ (sym (ap (λ (x : Store × Outcome). x.1) q) ∙ h) in
        (
          r,
          subst (λ (x : Store × Outcome). find_snapshot (x.0).snapshots n.id ≡ some r) (sym q) e,
          d,
          sym (resent_twice r.status) ∙ ap resent parts.0,
          parts.1,
        )
    | inr (inl (rej, q, why)) ↦ absurd (cc (sym (ap (λ (x : Store × Outcome). x.1) q) ∙ h))
    | inr (inr (ok, settled)) ↦
        let (st', status', stats', q, f) = Settled-stored s st n writer payload t settled in
        let parts = answered_parts _ _ _ _ (sym (ap (λ (x : Store × Outcome). x.1) q) ∙ h) in
        (
          inserted_row s n writer payload status' stats',
          subst
              (λ (x : Store × Outcome).
                find_snapshot (x.0).snapshots n.id
                ≡ some (inserted_row s n writer payload status' stats'))
              (sym q) f,
          (refl, refl, refl),
          ap resent parts.0,
          parts.1,
        )
  ]

not_held : (a b : Status) → resent a ≡ resent b → is_held b ≡ false → is_held a ≡ false
not_held held b e h = absurd (cc (e ∙ ap (λ x. if x then held else duplicate) h))
not_held applied b e h = refl
not_held duplicate b e h = refl
not_held late b e h = refl
not_held discarded b e h = refl

-- A stored snapshot is found after the calls that follow, when there are none or it is not held.
found_later :
    (st : Store) (cs : List Call) (id : Bytes) (r : SnapshotRow)
    → find_snapshot st.snapshots id ≡ some r
    → (cs ≡ []) ⊎ (is_held r.status ≡ false)
    → find_snapshot (serve_all st cs).snapshots id ≡ some r
unfolding serve_all
found_later st cs id r e (inl none_made) =
    subst (λ calls. find_snapshot (serve_all st calls).snapshots id ≡ some r) (sym none_made) e
found_later st cs id r e (inr final) = serve_all-find_snapshot st cs id r e final

-- A snapshot that was answered is sent again by the same sender, with any payload and configuration,
-- either at once, or, when the first answer was not that it is held, after any other snapshots were
-- sent, confirmed and discarded. Nothing is stored, and the answer has the stats of the first one; it
-- says held when the first one did, and else duplicate.
pub apply_again :
    (s s' : Services) (st : Store) (writer : Bytes) (n : Normalized) (payload payload' : Bytes)
    (cs : List Call) (status : Status) (stats : Stats)
    → (apply s st writer n payload).1 ≡ answered status stats
    → (cs ≡ []) ⊎ (is_held status ≡ false)
    → let st' = serve_all (apply s st writer n payload).0 cs in
      apply s' st' writer n payload'
      ≡ (st', answered (if is_held status then held else duplicate) stats)
apply_again s s' st writer n payload payload' cs status stats h between =
    let t = apply s st writer n payload in
    let after =
      stored_after s st writer n payload status stats t (apply_cases s st writer n payload) h in
    let later : (cs ≡ []) ⊎ (is_held (after.0).status ≡ false) = elim between [
      | inl e ↦ inl e
      | inr f ↦ inr (not_held (after.0).status status after.3 f)
    ] in
    elim (apply_stored s' (serve_all t.0 cs) writer n payload' after.0
      (found_later t.0 cs n.id after.0 after.1 later)) [
        | inl (d, q) ↦ absurd (d after.2)
        | inr (d, q) ↦
            q ∙ ap (λ (x : Outcome). (serve_all t.0 cs, x)) (cong_answered after.3 after.4)
      ]
