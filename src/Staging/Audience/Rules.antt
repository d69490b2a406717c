-- ===== src/Staging/Audience/Rules.antt =====
-- What ValidateAudience of internal/staging/audience.go lets through.
use glovebox.Prelude.{
  ℕ, ◌≤◌, ◌≡◌, ◌↔◌, refl, sym, ap, ◌∙◌, inl, inr, Bool, true, false, ◌||◌, List, [], ◌∷◌, ltb,
  arith, length, any, any_eq_iff, In, is_nil, Bytes, eq_bytes, none, some, Bool-cases,
}
use mathlib.Core.Path.{subst}
use glovebox.Prelude.Result.{ok, ◌>>=◌, ok-injective, >>=-ok}
use glovebox.Staging.Audience.{
  Flags, no_flags, note_token, check_tokens, check_flags, validate_audience, is_valid_token,
  is_household_subset, is_subject_relative, audience_public, audience_operator, audience_household,
  max_audience_entries,
}

-- Known tokens, none of them seen before.
abbrev pub TokensOk : List Bytes → List Bytes → Type 0
TokensOk seen [] = Unit
TokensOk seen (t ∷ ts) = (is_valid_token t ≡ true) × (¬ In t seen) × TokensOk (t ∷ seen) ts

-- The flags that the loop ends with.
abbrev noted : Flags → List Bytes → Flags
noted fl ts = record {
  has_public = fl.has_public || any (eq_bytes audience_public) ts;
  has_household = fl.has_household || any (eq_bytes audience_household) ts;
  has_operator = fl.has_operator || any (eq_bytes audience_operator) ts;
  has_household_subset = fl.has_household_subset || any is_household_subset ts;
  has_subject_relative = fl.has_subject_relative || any is_subject_relative ts;
}

or_assoc : (a b c : Bool) → ((a || b) || c) ≡ (a || (b || c))
or_assoc true b c = refl
or_assoc false b c = refl

or_false : (a : Bool) → (a || false) ≡ a
or_false true = refl
or_false false = refl

noted-nil : (fl : Flags) → noted fl [] ≡ fl
noted-nil fl =
    rw
      (
        or_false fl.has_public,
        or_false fl.has_household,
        or_false fl.has_operator,
        or_false fl.has_household_subset,
        or_false fl.has_subject_relative,
      )
      refl

noted-note_token :
    (t : Bytes) (fl : Flags) (ts : List Bytes) → noted (note_token t fl) ts ≡ noted fl (t ∷ ts)
unfolding note_token
noted-note_token t fl ts =
    rw
      (
        or_assoc fl.has_public _ _,
        or_assoc fl.has_household _ _,
        or_assoc fl.has_operator _ _,
        or_assoc fl.has_household_subset _ _,
        or_assoc fl.has_subject_relative _ _,
      )
      refl

check_tokens_iff :
    (seen : List Bytes) (fl out : Flags) (ts : List Bytes)
    → (check_tokens seen fl ts ≡ ok out) ↔ (TokensOk seen ts × (out ≡ noted fl ts))
unfolding check_tokens
check_tokens_iff seen fl out [] =
    (λ h. (tt, sym (ok-injective h) ∙ sym (noted-nil fl)), λ h. ap ok (sym (h.1 ∙ noted-nil fl)))
check_tokens_iff seen fl out (t ∷ ts) =
    let ih = check_tokens_iff (t ∷ seen) (note_token t fl) out ts in
    let same = noted-note_token t fl ts in
    let fresh = any_eq_iff t seen in
    elim (Bool-cases (is_valid_token t)) [
      | inr e ↦ rw e (λ h. cc, λ h. absurd (ground (arith, h.0.0)))
      | inl e ↦ elim (Bool-cases (any (eq_bytes t) seen)) [
        | inl q ↦ rw (e, q) (λ h. cc, λ h. absurd (h.0.1 (fresh.0 q)))
        | inr q ↦
            rw (e, q)
              (
                λ h. ((refl, λ m. ground (arith, fresh.1 m), (ih.0 h).0), (ih.0 h).1 ∙ same),
                λ h. ih.1 (h.0.2, h.1 ∙ sym same),
              )
      ]
    ]

-- The rules for the tokens of an audience, together.
pub record IsAllowed (audience : List Bytes) (has_data_subject : Bool) : Type 0 where
  pub some_token : is_nil audience ≡ false
  pub few : length audience ≤ max_audience_entries
  pub known_distinct : TokensOk [] audience
  pub public_alone : In audience_public audience → length audience ≤ 1
  pub operator_alone : In audience_operator audience → length audience ≤ 1
  pub household_whole : In audience_household audience → any is_household_subset audience ≡ false
  pub subject_known : has_data_subject ≡ false → any is_subject_relative audience ≡ false

check_flags_iff :
    (subj : Bool) (n : ℕ) (fl : Flags)
    → (check_flags subj n fl ≡ ok tt) ↔ (
        (fl.has_public ≡ true → n ≤ 1)
        × (fl.has_operator ≡ true → n ≤ 1)
        × (fl.has_household ≡ true → fl.has_household_subset ≡ false)
        × (subj ≡ false → fl.has_subject_relative ≡ false))
unfolding check_flags
check_flags_iff subj n fl = ground arith

accepted-IsAllowed :
    (audience : List Bytes) (subj : Bool)
    → is_nil audience ≡ false
    → length audience ≤ max_audience_entries
    → TokensOk [] audience
    → check_flags subj (length audience) (noted no_flags audience) ≡ ok tt
    → IsAllowed audience subj
accepted-IsAllowed audience subj some_token few known k =
    let r = (check_flags_iff subj (length audience) (noted no_flags audience)).0 k in
    record {
      some_token = some_token;
      few = few;
      known_distinct = known;
      public_alone = λ m. r.0 ((any_eq_iff audience_public audience).1 m);
      operator_alone = λ m. r.1 ((any_eq_iff audience_operator audience).1 m);
      household_whole = λ m. r.2 ((any_eq_iff audience_household audience).1 m);
      subject_known = r.3;
    }

IsAllowed-check_flags :
    (audience : List Bytes) (subj : Bool)
    → IsAllowed audience subj
    → check_flags subj (length audience) (noted no_flags audience) ≡ ok tt
IsAllowed-check_flags audience subj a =
    (check_flags_iff subj (length audience) (noted no_flags audience)).1 (
      λ e. a.public_alone ((any_eq_iff audience_public audience).0 e),
      λ e. a.operator_alone ((any_eq_iff audience_operator audience).0 e),
      λ e. a.household_whole ((any_eq_iff audience_household audience).0 e),
      a.subject_known,
    )

chain :
    (audience : List Bytes) (subj : Bool)
    → is_nil audience ≡ false
    → ltb max_audience_entries (length audience) ≡ false
    → validate_audience (some audience) subj ≡ ok tt
    → (fl : Flags) × (check_tokens [] no_flags audience ≡ ok fl)
      × (check_flags subj (length audience) fl ≡ ok tt)
unfolding validate_audience
chain audience subj e q h =
    let k : (check_tokens [] no_flags audience >>= λ fl. check_flags subj (length audience) fl)
        ≡ ok tt =
      ground (arith, h) in
    >>=-ok (check_tokens [] no_flags audience) (λ fl. check_flags subj (length audience) fl) k

-- An audience that is set is accepted exactly when it has 1 to 16 known tokens without repetition,
-- "public" and "operator" only ever alone, "household" without its own subsets, and, with no data
-- subject, no token that is relative to one. An audience that is not set is accepted.
pub validate_audience_iff :
    (audience : List Bytes) (has_data_subject : Bool)
    → (validate_audience none has_data_subject ≡ ok tt)
      × ((validate_audience (some audience) has_data_subject ≡ ok tt)
          ↔ IsAllowed audience has_data_subject)
unfolding validate_audience
validate_audience_iff audience subj = (
  refl,
  (
    λ h. elim (Bool-cases (is_nil audience)) [
      | inl e ↦ absurd (ground (arith, e))
      | inr e ↦ elim (Bool-cases (ltb max_audience_entries (length audience))) [
        | inl q ↦ absurd (ground (arith, e))
        | inr q ↦
            let (fl, c, k) = chain audience subj e q h in
            let (known, same) = (check_tokens_iff [] no_flags fl audience).0 c in
            accepted-IsAllowed audience subj e (ground arith) known
              (subst (λ x. check_flags subj (length audience) x ≡ ok tt) same k)
      ]
    ],
    λ a.
        let within : ltb max_audience_entries (length audience) ≡ false = ground (arith, a.few) in
        let passed = (check_tokens_iff [] no_flags _ audience).1 (a.known_distinct, refl) in
        rw (a.some_token, within, passed) (IsAllowed-check_flags audience subj a),
  ),
)
