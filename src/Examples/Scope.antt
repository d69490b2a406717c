-- ===== src/Examples/Scope.antt =====
-- Scopes of internal/journal/record/scope.go.
use glovebox.Prelude.{◌≡◌, ◌↔◌, refl, [], ◌∷◌, codes}
use glovebox.Prelude.Result.{ok}
use glovebox.Journal.Scope.{canonical, Scope, parse_scope}
use glovebox.Journal.Scope.Canonical.{canonical_injective}
use glovebox.Journal.Scope.Checks.{IsScope, parse_scope_iff}

abbrev school : Scope
school = (codes "source", codes "a/b=c") ∷ (codes "course", codes "50%") ∷ []

canonical_injective_example : school ≡ school
canonical_injective_example = canonical_injective school school refl

parse_scope_iff_example : (parse_scope school ≡ ok school) ↔ (IsScope school × (school ≡ school))
parse_scope_iff_example = parse_scope_iff school school

school_accepted : parse_scope school ≡ ok school
unfolding parse_scope
school_accepted = refl

sample_canonical :
    canonical ((codes "source", codes "a/b") ∷ (codes "course", codes "c=1") ∷ [])
    ≡ codes "source=a%2Fb/course=c%3D1"
unfolding canonical
sample_canonical = refl
