-- ===== src/Journal/Apply/Final.antt =====
-- What becomes of stored snapshots in internal/journal/apply.go and hold.go.
use glovebox.Prelude.{
  ℕ, ◌≡◌, sym, ◌∙◌, true, false, List, [], ◌∷◌, All, map, arith, Bytes, eq_bytes, eq_bytes_iff,
  eq_bytes→eq, none, some, Bool-cases, inl, inr, some-injective,
}
use mathlib.Core.Path.{subst}
use glovebox.Journal.Diff.{Stats}
use glovebox.Journal.Apply.Types.{Normalized, Status, SnapshotRow, Store, Services}
use glovebox.Journal.Apply.Serve.{
  find_snapshot, update_status, discard_older, is_held, Call, apply_call, confirm_call,
  discard_call, serve_all,
}
use glovebox.Journal.Apply.Sequences.{AllowedCall, serve_all_keeps, written_plan-snapshots}

-- The snapshot of the id is stored as it is.
abbrev Stores : Bytes → SnapshotRow → List SnapshotRow → Type 0
Stores id r rows = find_snapshot rows id ≡ some r

Stores-inserted :
    (id : Bytes) (r row : SnapshotRow) (rows : List SnapshotRow)
    → find_snapshot rows row.id ≡ none
    → Stores id r rows
    → Stores id r (row ∷ rows)
unfolding find_snapshot
Stores-inserted id r row rows f p = ground (arith, f, p, eq_bytes_iff row.id id)

Stores-updated :
    (id other : Bytes) (r : SnapshotRow) (status : Status) (stats : Stats) (rows : List SnapshotRow)
    → eq_bytes id other ≡ false
    → Stores id r rows
    → Stores id r (map (update_status other status stats) rows)
unfolding find_snapshot update_status
Stores-updated id other r status stats [] d p = p
Stores-updated id other r status stats (q ∷ rows) d p = ground (
  arith,
  d,
  p,
  eq_bytes_iff q.id id,
  eq_bytes_iff q.id other,
  eq_bytes_iff id other,
  Stores-updated id other r status stats rows d,
)

discard_older_kept :
    (type scope : Bytes) (at : ℕ) (q : SnapshotRow)
    → is_held q.status ≡ false
    → discard_older type scope at q ≡ q
unfolding discard_older
discard_older_kept type scope at q h = ground (arith, h)

-- A held snapshot has another id.
other_id :
    (id other : Bytes) (r q : SnapshotRow) (rows : List SnapshotRow)
    → Stores id r rows
    → is_held r.status ≡ false
    → find_snapshot rows other ≡ some q
    → is_held q.status ≡ true
    → eq_bytes id other ≡ false
other_id id other r q rows p h f k = elim (Bool-cases (eq_bytes id other)) [
  | inr e ↦ e
  | inl e ↦
      let same =
        some-injective
          (sym p ∙ subst (λ x. find_snapshot rows x ≡ some q) (sym (eq_bytes→eq id other e)) f) in
      let t = subst (λ (x : SnapshotRow). is_held x.status ≡ false) same h in cc (t, k)
]

Stores-discarded :
    (id : Bytes) (r : SnapshotRow) (type scope : Bytes) (at : ℕ) (rows : List SnapshotRow)
    → is_held r.status ≡ false
    → Stores id r rows
    → Stores id r (map (discard_older type scope at) rows)
unfolding find_snapshot discard_older
Stores-discarded id r type scope at [] h p = p
Stores-discarded id r type scope at (q ∷ rows) h p = elim (Bool-cases (eq_bytes q.id id)) [
  | inl e ↦
      let same : q ≡ r = some-injective (ground (arith, e, p)) in
      ground (
        arith,
        e,
        p,
        discard_older_kept type scope at q
            (subst (λ (x : SnapshotRow). is_held x.status ≡ false) (sym same) h),
      )
  | inr e ↦ ground (arith, e, p, Stores-discarded id r type scope at rows h)
]

abbrev AnySnapshot : Services → Normalized → Type 0
AnySnapshot s n = Unit {0}

any_call : (cs : List Call) → All (AllowedCall AnySnapshot) cs
any_call [] = tt
any_call (apply_call s writer n payload ∷ cs) = (tt, any_call cs)
any_call (confirm_call s may_write id ∷ cs) = ((λ payload at n v. tt), any_call cs)
any_call (discard_call id ∷ cs) = (tt, any_call cs)

-- A stored snapshot that is not held stays as it is, whatever snapshots are sent, confirmed and
-- discarded afterwards.
pub serve_all-find_snapshot :
    (st : Store) (cs : List Call) (id : Bytes) (r : SnapshotRow)
    → find_snapshot st.snapshots id ≡ some r
    → is_held r.status ≡ false
    → find_snapshot (serve_all st cs).snapshots id ≡ some r
serve_all-find_snapshot st cs id r stored final =
    serve_all_keeps (λ st. Stores id r st.snapshots) AnySnapshot
      (λ st row f p. Stores-inserted id r row st.snapshots f p)
      (λ st other status stats q f h p.
        Stores-updated id other r status stats st.snapshots
          (other_id id other r q st.snapshots p final f h) p)
      (λ st type scope at p. Stores-discarded id r type scope at st.snapshots final p)
      (λ s st n req a p. subst (Stores id r) (sym (written_plan-snapshots s st n req)) p) st cs
      (any_call cs) stored
