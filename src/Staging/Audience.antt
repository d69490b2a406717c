-- ===== src/Staging/Audience.antt =====
-- internal/staging/audience.go: the audience of a staged item. A nil slice is none.
pub mod Rules
use glovebox.Prelude.{
  ℕ, Bool, true, false, not, ◌&&◌, ◌||◌, List, [], ◌∷◌, ltb, length, any, is_nil, Bytes, codes,
  eq_bytes, Option, none, some,
}
use glovebox.Prelude.Result.{Result, ok, err, ◌>>=◌, ◌>>◌, fail_if}

abbrev pub audience_public : Bytes
audience_public = codes "public"

abbrev pub audience_operator : Bytes
audience_operator = codes "operator"

abbrev pub audience_household : Bytes
audience_household = codes "household"

abbrev pub max_audience_entries : ℕ
max_audience_entries = 16

abbrev pub household_subset_tokens : List Bytes
household_subset_tokens = codes "subject" ∷ codes "guardians" ∷ codes "siblings" ∷ []

abbrev pub subject_relative_tokens : List Bytes
subject_relative_tokens = codes "subject" ∷ codes "siblings" ∷ []

abbrev pub valid_audience_tokens : List Bytes
valid_audience_tokens =
    codes "subject"
    ∷ codes "guardians"
    ∷ codes "siblings"
    ∷ audience_household
    ∷ codes "caregivers"
    ∷ audience_public
    ∷ audience_operator
    ∷ []

unfoldable pub is_household_subset : Bytes → Bool
is_household_subset tok = any (eq_bytes tok) household_subset_tokens

unfoldable pub is_subject_relative : Bytes → Bool
is_subject_relative tok = any (eq_bytes tok) subject_relative_tokens

unfoldable pub is_valid_token : Bytes → Bool
is_valid_token tok = any (eq_bytes tok) valid_audience_tokens

pub data AudienceError : Type 0 where
  empty too_many public_not_alone operator_not_alone household_with_subset needs_data_subject :
      AudienceError
  unknown_token duplicate_token : Bytes → AudienceError

-- The five variables of the loop.
pub record Flags : Type 0 where
  pub has_public : Bool
  pub has_household : Bool
  pub has_operator : Bool
  pub has_household_subset : Bool
  pub has_subject_relative : Bool

abbrev pub no_flags : Flags
no_flags = record {
  has_public = false;
  has_household = false;
  has_operator = false;
  has_household_subset = false;
  has_subject_relative = false;
}

unfoldable pub note_token : Bytes → Flags → Flags
note_token tok fl = record {
  has_public = fl.has_public || eq_bytes audience_public tok;
  has_household = fl.has_household || eq_bytes audience_household tok;
  has_operator = fl.has_operator || eq_bytes audience_operator tok;
  has_household_subset = fl.has_household_subset || is_household_subset tok;
  has_subject_relative = fl.has_subject_relative || is_subject_relative tok;
}

-- The loop over the tokens; `seen` holds those met.
unfoldable pub check_tokens : List Bytes → Flags → List Bytes → Result AudienceError Flags
check_tokens seen fl [] = ok fl
check_tokens seen fl (tok ∷ rest) = do
  fail_if (not (is_valid_token tok)) (unknown_token tok)
  fail_if (any (eq_bytes tok) seen) (duplicate_token tok)
  check_tokens (tok ∷ seen) (note_token tok fl) rest

-- The checks after the loop.
unfoldable pub check_flags : Bool → ℕ → Flags → Result AudienceError (Unit {0})
check_flags has_data_subject n fl = do
  fail_if (fl.has_public && ltb 1 n) public_not_alone
  fail_if (fl.has_operator && ltb 1 n) operator_not_alone
  fail_if (fl.has_household && fl.has_household_subset) household_with_subset
  fail_if (not has_data_subject && fl.has_subject_relative) needs_data_subject

unfoldable pub validate_audience : Option (List Bytes) → Bool → Result AudienceError (Unit {0})
validate_audience none has_data_subject = ok tt
validate_audience (some audience) has_data_subject = do
  fail_if (is_nil audience) empty
  fail_if (ltb max_audience_entries (length audience)) too_many
  fl ← check_tokens [] no_flags audience
  check_flags has_data_subject (length audience) fl

-- EffectiveAudience, over the audience field of the metadata.
unfoldable pub effective_audience : Option (List Bytes) → List Bytes
effective_audience none = audience_household ∷ []
effective_audience (some audience) = audience
