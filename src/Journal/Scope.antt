-- ===== src/Journal/Scope.antt =====
-- internal/journal/record/scope.go: the scope of a snapshot, its checks and its canonical form.
pub mod Canonical
pub mod Checks
use glovebox.Prelude.{
  ℕ, suc, ◌+◌, Bool, true, false, not, ◌&&◌, ◌||◌, List, [], ◌∷◌, ◌++◌, leb, ltb, ◌==◌, any, all,
  Bytes, length, ◌≡◌, refl, codes, String, eq_bytes, if◌then◌else◌, Option, none, some, is_nil,
}
use glovebox.Prelude.Result.{Result, ok, err, ◌>>=◌, ◌>>◌, fail_if}
use glovebox.Prelude.Utf8.{runes?}
use glovebox.Journal.Names.{Rejection, schema_err, valid_name, suspicious}

-- One ["name", "value"] pair.
abbrev pub ScopePart : Type 0
ScopePart = Bytes × Bytes

-- A validated scope is its parts, in the order given.
abbrev pub Scope : Type 0
Scope = List ScopePart

abbrev pub part_source : Bytes
part_source = codes "source"

abbrev pub part_subject : Bytes
part_subject = codes "data_subject"

abbrev pub max_scope_parts : ℕ
max_scope_parts = 8

abbrev pub max_scope_value_bytes : ℕ
max_scope_value_bytes = 256

-- The control characters that a stored key is refused for.
pub control : ℕ → Bool
unfolding suspicious
control r = ltb r 0x20 || r == 0x7f || suspicious r

-- The checks on a value: its size, valid UTF-8, no control characters.
pub check_value : Bytes → Result Rejection (Unit {0})
check_value value = do
  fail_if (is_nil value || ltb max_scope_value_bytes (length value)) schema_err
  elim (runes? value) [ none ↦ err schema_err | some rs ↦ fail_if (any control rs) schema_err ]

-- The loop over the parts: `i` is the index, `seen` holds the names met.
pub check_parts : ℕ → List Bytes → List ScopePart → Result Rejection (Unit {0})
check_parts i seen [] = ok tt
check_parts i seen ((name, value) ∷ rest) =
    let later = check_parts (suc i) (name ∷ seen) rest in
    do
      fail_if (not (valid_name name)) schema_err
      fail_if (any (eq_bytes name) seen) schema_err
      fail_if (i == 0 && not (eq_bytes name part_source)) schema_err
      check_value value
      later

unfoldable pub parse_scope : List ScopePart → Result Rejection Scope
unfolding check_parts check_value control valid_name runes? eq_bytes
parse_scope parts = do
  fail_if (length parts == 0 || ltb max_scope_parts (length parts)) schema_err
  check_parts 0 [] parts
  ok parts

-- The replacer of %, / and =.
escape_byte : ℕ → Bytes
escape_byte b =
    if b == b'%'
    then codes "%25"
    else if b == b'/'
    then codes "%2F"
    else if b == b'='
    then codes "%3D"
    else b ∷ []

unfoldable pub escape_scope_value : Bytes → Bytes
unfolding escape_byte
escape_scope_value [] = []
escape_scope_value (b ∷ s) = escape_byte b ++ escape_scope_value s

-- The loop of Canonical from part i on.
canonical_from : ℕ → Scope → Bytes
canonical_from i [] = []
canonical_from i ((name, value) ∷ rest) =
    (if ltb 0 i then b'/' ∷ [] else [])
    ++ (escape_scope_value name
        ++ (b'=' ∷ (escape_scope_value value ++ canonical_from (suc i) rest)))

unfoldable pub canonical : Scope → Bytes
unfolding canonical_from escape_scope_value
canonical s = canonical_from 0 s

unfoldable pub get_part : Scope → Bytes → Option Bytes
get_part [] name = none
get_part ((n, v) ∷ rest) name = if eq_bytes n name then some v else get_part rest name

abbrev or_empty : Option Bytes → Bytes
or_empty none = []
or_empty (some v) = v

pub source : Scope → Bytes
source s = or_empty (get_part s part_source)

pub subject : Scope → Bytes
subject s = or_empty (get_part s part_subject)

abbrev pub owner_household : Bytes
owner_household = codes "household"

unfoldable pub household_scope : Bytes → Bytes → Bytes
unfolding canonical
household_scope record_type subj = canonical (
    (part_source, owner_household)
    ∷ (codes "record_type", record_type)
    ∷ (if is_nil subj then [] else (part_subject, subj) ∷ []))

-- badScopeValue
pub bad_scope_value : Bytes → Bool
bad_scope_value s = elim (parse_scope ((part_source, s) ∷ [])) [ ok _ ↦ false | err _ ↦ true ]
