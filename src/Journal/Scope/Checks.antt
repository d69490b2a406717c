-- ===== src/Journal/Scope/Checks.antt =====
-- What ParseScope of internal/journal/record/scope.go lets through.
use glovebox.Prelude.{
  ℕ, suc, ◌≤◌, ◌≡◌, ◌≢◌, ◌↔◌, refl, inl, inr, true, ◌||◌, ltb, ◌==◌, false, List, [], ◌∷◌, arith,
  Bytes, All, In, any, any_eq_iff, length, eq_bytes→eq, eq→eq_bytes, some, Option-cases,
}
use glovebox.Prelude.Result.{ok}
use glovebox.Prelude.Utf8.{runes?}
use glovebox.Journal.Names.{valid_name}
use glovebox.Journal.Scope.{
  ScopePart, part_source, max_scope_parts, max_scope_value_bytes, control, check_value, check_parts,
  parse_scope,
}

-- A value of 1 to 256 bytes of valid UTF-8 without control characters.
pub record ValueOk (v : Bytes) : Type 0 where
  pub non_empty : v ≢ []
  pub short : length v ≤ max_scope_value_bytes
  pub text : List ℕ
  pub valid : runes? v ≡ some text
  pub clean : All (λ r. control r ≡ false) text

-- Every name is well formed and none occurs twice, `seen` counted.
abbrev pub NamesOk : List Bytes → List ScopePart → Type 0
NamesOk seen [] = Unit
NamesOk seen (p ∷ ps) = (valid_name p.0 ≡ true) × (¬ In p.0 seen) × NamesOk (p.0 ∷ seen) ps

abbrev StartsAtSource : List ScopePart → Type 0
StartsAtSource [] = ⊥
StartsAtSource (p ∷ ps) = p.0 ≡ part_source

pub record IsScope (ps : List ScopePart) : Type 0 where
  pub few : length ps ≤ max_scope_parts
  pub first : StartsAtSource ps
  pub names : NamesOk [] ps
  pub values : All (λ p. ValueOk p.1) ps

any_none : (rs : List ℕ) → any control rs ≡ false → All (λ r. control r ≡ false) rs
any_none [] h = tt
any_none (r ∷ rs) h = (ground arith, any_none rs (ground arith))

none_any : (rs : List ℕ) → All (λ r. control r ≡ false) rs → any control rs ≡ false
none_any [] h = refl
none_any (r ∷ rs) h = ground (arith, none_any rs h.1)

check_value_sound : (v : Bytes) → check_value v ≡ ok tt → ValueOk v
unfolding check_value
check_value_sound v h = elim (Option-cases (runes? v)) [
  | inl e ↦ absurd (ground arith)
  | inr (rs, e) ↦ record {
    non_empty = λ n. ground arith;
    short = ground arith;
    text = rs;
    valid = e;
    clean = any_none rs (ground arith);
  }
]

check_value_complete : (v : Bytes) → ValueOk v → check_value v ≡ ok tt
unfolding check_value
check_value_complete v h = ground (arith, h.valid, h.non_empty, none_any h.text h.clean)

check_parts_sound :
    (i : ℕ) (seen : List Bytes) (ps : List ScopePart)
    → check_parts i seen ps ≡ ok tt
    → NamesOk seen ps × All (λ p. ValueOk p.1) ps
unfolding check_parts
check_parts_sound i seen [] h = (tt, tt)
check_parts_sound i seen ((n, v) ∷ ps) h =
    let value : ValueOk v = check_value_sound v (ground arith) in
    let rest : NamesOk (n ∷ seen) ps × All (λ p. ValueOk p.1) ps =
      check_parts_sound (suc i) (n ∷ seen) ps (ground arith) in
    ((ground arith, (λ m. ground (arith, (any_eq_iff n seen).1 m)), rest.0), (value, rest.1))

check_parts_first :
    (ps : List ScopePart) → ps ≢ [] → check_parts 0 [] ps ≡ ok tt → StartsAtSource ps
unfolding check_parts
check_parts_first [] n h = n refl
check_parts_first ((n, v) ∷ ps) q h = eq_bytes→eq n part_source (ground arith)

check_parts_complete :
    (i : ℕ) (seen : List Bytes) (ps : List ScopePart)
    → (i ≡ 0 → StartsAtSource ps)
    → NamesOk seen ps
    → All (λ p. ValueOk p.1) ps
    → check_parts i seen ps ≡ ok tt
unfolding check_parts
check_parts_complete i seen [] s n v = refl
check_parts_complete i seen ((name, value) ∷ ps) s n v = ground (
  arith,
  check_value_complete value v.0,
  (any_eq_iff name seen).0,
  s,
  eq→eq_bytes name part_source,
  n.1,
  check_parts_complete (suc i) (name ∷ seen) ps (λ e. absurd (omega arith)) n.2 v.1,
)

parse_scope_sound :
    (p : ScopePart) (ps s : List ScopePart) → parse_scope (p ∷ ps) ≡ ok s → IsScope (p ∷ ps)
unfolding parse_scope
parse_scope_sound p ps s h =
    let c : check_parts 0 [] (p ∷ ps) ≡ ok tt = ground arith in
    let parts = check_parts_sound 0 [] (p ∷ ps) c in
    record {
      few = ground arith;
      first = check_parts_first (p ∷ ps) (λ e. cc) c;
      names = parts.0;
      values = parts.1;
    }

few_enough : (n : ℕ) → suc n ≤ max_scope_parts → (suc n == 0 || ltb max_scope_parts (suc n)) ≡ false
few_enough n h = ground arith

parse_scope_complete :
    (p : ScopePart) (ps : List ScopePart) → IsScope (p ∷ ps) → parse_scope (p ∷ ps) ≡ ok (p ∷ ps)
parse_scope_complete p ps h =
    unfold parse_scope in
    rw (
      few_enough (length ps) h.few,
      check_parts_complete 0 [] (p ∷ ps) (λ e. h.first) h.names h.values,
    )

-- A scope is accepted, unchanged, exactly when it has 1 to 8 parts, the first of them the source
-- part, with well-formed names that do not repeat and values of 1 to 256 bytes of valid UTF-8
-- without control characters.
pub parse_scope_iff : (ps s : List ScopePart) → (parse_scope ps ≡ ok s) ↔ (IsScope ps × (s ≡ ps))
parse_scope_iff [] s = (λ h. absurd (unfold parse_scope in ground arith), λ h. absurd h.0.first)
parse_scope_iff (p ∷ ps) s = (
  λ h. (parse_scope_sound p ps s h, unfold parse_scope in ground arith),
  λ h. rw (h.1) (parse_scope_complete p ps h.0),
)
