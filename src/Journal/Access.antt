-- ===== src/Journal/Access.antt =====
-- internal/journal/access/access.go: what a reader may see of a row, of a stored text, of an old
-- value and of the notices. A grant is internal/journal/roster/roster.go's pair.
pub mod Visibility
pub mod Erased
use glovebox.Prelude.{
  ℕ, Bool, true, false, not, ◌&&◌, ◌||◌, List, [], ◌∷◌, ◌++◌, any, Bytes, codes, String, eq_bytes,
  has_prefix, if◌then◌else◌, Option, none, some,
}
use glovebox.Prelude.Join.{join}
use glovebox.Journal.Names.{RawMessage}

-- One (subject, token) pair that a reader holds.
pub record Grant : Type 0 where
  pub subject : Bytes
  pub token : Bytes

-- journalapi.Notice
pub record Notice : Type 0 where
  pub token : Bytes
  pub mode : Bytes
  pub purpose : Bytes

abbrev pub public : Bytes
public = codes "public"

abbrev pub erased_prefix : Bytes
erased_prefix = codes "erased:"

abbrev pub erased_author : Bytes
erased_author = codes "erased:author"

abbrev pub erased_reader_prefix : Bytes
erased_reader_prefix = codes "erased:reader:"

unfoldable pub reader_token : List Bytes → Bytes
unfolding join
reader_token audience = erased_reader_prefix ++ join b',' audience

unfoldable pub is_erased : Bytes → Bool
unfolding has_prefix
is_erased subject = has_prefix subject erased_prefix

-- The grants for a kept note: the author's, and the one for the readers frozen with the audience.
opens_kept : Bytes → List Bytes → Grant → Bool
opens_kept subject audience g =
    eq_bytes g.subject subject
    && (eq_bytes g.token erased_author || eq_bytes g.token (reader_token audience))

-- The grants for any other row: one that names the subject and a token of the audience.
opens_row : Bytes → List Bytes → Grant → Bool
opens_row subject audience g = eq_bytes g.subject subject && any (eq_bytes g.token) audience

pub visible : List Grant → Bytes → List Bytes → Bool
unfolding opens_kept opens_row
visible grants subject audience =
    if is_erased subject
    then any (opens_kept subject audience) grants
    else any (eq_bytes public) audience || any (opens_row subject audience) grants

abbrev pub withheld_scan : RawMessage
withheld_scan = some (codes "\"withheld: failed content scan\"")

abbrev pub withheld_audience : RawMessage
withheld_audience = some (codes "\"withheld: different audience\"")

abbrev pub verdict_pass : Bytes
verdict_pass = codes "pass"

pub text : RawMessage → Bytes → RawMessage
text none verdict = none
text (some v) verdict = if eq_bytes verdict verdict_pass then some v else withheld_scan

pub old_value : List Grant → Bytes → List Bytes → Bool → RawMessage → RawMessage
old_value grants subject prev audience_changed v =
    if not audience_changed || visible grants subject prev then v else withheld_audience

holds_notice : List Grant → Bytes → Notice → Bool
holds_notice grants subject n =
    any (λ g. eq_bytes g.subject subject && eq_bytes g.token n.token) grants

keep_notices : List Grant → Bytes → List Notice → List Notice
unfolding holds_notice
keep_notices grants subject [] = []
keep_notices grants subject (n ∷ ns) =
    let rest = keep_notices grants subject ns in
    if holds_notice grants subject n then n ∷ rest else rest

pub notices : List Grant → Bytes → List Notice → List Notice
unfolding keep_notices
notices grants subject ns = if is_erased subject then [] else keep_notices grants subject ns
