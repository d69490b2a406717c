-- ===== src/Examples/Access.antt =====
-- Readers of internal/journal/access: a guardian, a kept note's author and a frozen reader.
use glovebox.Prelude.{
  ◌≡◌, ◌↔◌, refl, ◌⊎◌, true, false, List, [], ◌∷◌, In, All, Bytes, has_prefix, codes, some,
}
use glovebox.Journal.Names.{RawMessage, valid_token}
use glovebox.Journal.Access.{Grant, Notice, public, is_erased, visible, erased_author}
use glovebox.Journal.Access.Visibility.{HoldsOneOf, visible_iff}
use glovebox.Journal.Access.Erased.{IsAudience, OfRoster, frozen_grant, frozen_reader_exact}

abbrev pat : Bytes
pat = codes "pat"

abbrev kept : Bytes
kept = codes "erased:1f"

abbrev guardians : List Bytes
guardians = codes "guardians" ∷ []

abbrev guardian : Grant
guardian = record { subject = pat; token = codes "guardians" }

abbrev author : Grant
author = record { subject = kept; token = erased_author }

abbrev grade : RawMessage
grade = some (codes "\"B+\"")

abbrev late_notice : Notice
late_notice = record { token = codes "guardians"; mode = codes "push"; purpose = codes "late" }

pat_not_erased : is_erased pat ≡ false
unfolding is_erased
pat_not_erased = refl

kept_erased : is_erased kept ≡ true
unfolding is_erased
kept_erased = refl

guardians-IsAudience : IsAudience guardians
unfolding valid_token
guardians-IsAudience = (λ e. cc, (refl, tt))

visible_iff_example :
    (visible (guardian ∷ []) pat guardians ≡ true)
    ↔ (In public guardians ⊎ HoldsOneOf (guardian ∷ []) pat guardians)
visible_iff_example = visible_iff (guardian ∷ []) pat guardians pat_not_erased

guardian-OfRoster : All OfRoster (guardian ∷ [])
unfolding has_prefix
guardian-OfRoster = (refl, tt)

frozen_reader_exact_example :
    (visible (frozen_grant kept guardians ∷ guardian ∷ []) kept guardians ≡ true)
    ↔ (guardians ≡ guardians)
frozen_reader_exact_example =
    frozen_reader_exact kept guardians guardians (guardian ∷ []) kept_erased guardians-IsAudience
      guardians-IsAudience guardian-OfRoster
