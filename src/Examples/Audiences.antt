-- ===== src/Examples/Audiences.antt =====
-- Audiences of internal/staging/audience.go.
use glovebox.Prelude.{◌≡◌, ◌↔◌, refl, false, List, [], ◌∷◌, Bytes, codes, none, some, eq_bytes}
use glovebox.Prelude.Result.{ok}
use glovebox.Staging.Audience.{
  validate_audience, check_tokens, check_flags, note_token, is_valid_token, is_household_subset,
  is_subject_relative,
}
use glovebox.Staging.Audience.Rules.{IsAllowed, validate_audience_iff}

abbrev family : List Bytes
family = codes "household" ∷ codes "caregivers" ∷ []

validate_audience_iff_example :
    (validate_audience none false ≡ ok tt)
    × ((validate_audience (some family) false ≡ ok tt) ↔ IsAllowed family false)
validate_audience_iff_example = validate_audience_iff family false

family_accepted : validate_audience (some family) false ≡ ok tt
unfolding validate_audience check_tokens check_flags note_token is_valid_token is_household_subset
    is_subject_relative eq_bytes
family_accepted = refl
