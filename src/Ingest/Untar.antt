-- ===== src/Ingest/Untar.antt =====
-- internal/ingest/archives/untar.go: unpacking an archive under its safety rules. The tar reader's
-- entries are a list, with what of each one's body it yields; the file system answers every call as a
-- function of the calls before it.
pub mod Names
pub mod Runs
pub mod Budget
pub mod Calls
use glovebox.Prelude.{
  ℕ, suc, ◌+◌, ◌-◌, ◌*◌, Bool, true, false, not, ◌&&◌, ◌||◌, ltb, leb, ◌==◌, List, [], ◌∷◌, ◌++◌,
  any, all, length, take, drop, Bytes, codes, eq_bytes, has_prefix, is_nil, Option, none, some,
  if◌then◌else◌,
}
use glovebox.Prelude.Result.{Result, ok, err}
use glovebox.Prelude.Utf8.{is_utf8}

abbrev pub path_max : ℕ
path_max = 4096

abbrev pub name_max : ℕ
name_max = 255

abbrev pub max_entries_default : ℕ
max_entries_default = 1000000

abbrev pub size_factor : ℕ
size_factor = 2

-- Of the modes, 0600 and 0700.
abbrev pub file_mode : ℕ
file_mode = 0x180

abbrev pub dir_mode : ℕ
dir_mode = 0x1c0

-- The sentinels, and any other error.
pub data TarError : Type 0 where
  pax_override typeflag_error name_invalid path_traversal too_large too_many other : TarError

-- ClassifyReason
unfoldable pub classify_reason : Option TarError → Option Bytes
classify_reason none = none
classify_reason (some pax_override) = some (codes "pax_path_override")
classify_reason (some typeflag_error) = some (codes "typeflag_disallowed")
classify_reason (some name_invalid) = some (codes "name_invalid")
classify_reason (some path_traversal) = some (codes "name_traversal")
classify_reason (some too_large) = some (codes "size_too_large")
classify_reason (some too_many) = some (codes "entry_count_too_large")
classify_reason (some other) = none

-- strings.Split(s, c)
unfoldable pub split_first : ℕ → List Bytes → List Bytes
split_first b [] = (b ∷ []) ∷ []
split_first b (p ∷ parts) = (b ∷ p) ∷ parts

unfoldable pub split : ℕ → Bytes → List Bytes
split c [] = [] ∷ []
split c (b ∷ s) = let rest = split c s in if b == c then [] ∷ rest else split_first b rest

-- strings.Contains(s, p)
unfoldable pub contains : Bytes → Bytes → Bool
contains [] p = is_nil p
contains (b ∷ s) p = has_prefix (b ∷ s) p || contains s p

-- strings.HasSuffix(s, "/")
unfoldable pub ends_with : ℕ → Bytes → Bool
ends_with c [] = false
ends_with c (b ∷ []) = b == c
ends_with c (b ∷ d ∷ s) = ends_with c (d ∷ s)

-- validUntarName
unfoldable pub valid_untar_name : Bytes → Bool
valid_untar_name name =
    if is_nil name || ltb path_max (length name)
    then false
    else if any (λ c. c == 0) name
    then false
    else if not (is_utf8 name)
    then false
    else if any (λ c. ltb c 0x20 || c == 0x7f) name
    then false
    else not (any (λ comp. ltb name_max (length comp)) (split b'/' name))

-- tar.TypeReg and tar.TypeDir
abbrev pub type_reg : ℕ
type_reg = b'0'

abbrev pub type_dir : ℕ
type_dir = b'5'

-- validateTypeflag
unfoldable pub valid_typeflag : ℕ → Bool
valid_typeflag t = t == type_reg || t == type_dir

-- The drive letter check: any byte, then a colon.
unfoldable pub has_drive : Bytes → Bool
has_drive [] = false
has_drive (b ∷ []) = false
has_drive (b ∷ c ∷ s) = c == b':'

-- hasPathTraversal
unfoldable pub has_path_traversal : Bytes → ℕ → Bool
has_path_traversal name typeflag =
    if has_prefix name (codes "/")
    then true
    else if contains name (codes "\\")
    then true
    else if contains name (codes "//")
    then true
    else if ends_with b'/' name && typeflag == type_reg
    then true
    else if has_drive name
    then true
    else any (λ comp. eq_bytes comp (codes "..")) (split b'/' name)

-- A tar header, with what the reader yields of its body and whether it breaks off there. A negative
-- size is none.
pub record Entry : Type 0 where
  pub pax_path : Bool
  pub pax_linkpath : Bool
  pub typeflag : ℕ
  pub name : Bytes
  pub size : Option ℕ
  pub content : Bytes
  pub broken : Bool

pub record UntarConfig : Type 0 where
  pub dest_dir : Bytes
  pub upload_length : ℕ
  pub max_entries : ℕ

-- The calls on the file system.
pub data Action : Type 0 where
  mkdir_all : Bytes → Action
  chmod : Bytes → ℕ → Action
  open_new : Bytes → Action
  write : Bytes → Bytes → Action
  close : Bytes → Action

-- The functions of filepath, and whether a call succeeds after those made; a write that fails has
-- written some bytes.
pub record Host : Type 0 where
  pub clean : Bytes → Bytes
  pub join_path : Bytes → Bytes → Bytes
  pub rel : Bytes → Bytes → Option Bytes
  pub dir : Bytes → Bytes
  pub succeeds : List Action → Action → Bool
  pub short_write : List Action → Bytes → Option ℕ

pub record Run : Type 0 where
  pub entries : ℕ
  pub written : ℕ
  pub actions : List Action

pub record Untarred : Type 0 where
  pub run : Run
  pub error : Option TarError

abbrev pub stop : Run → TarError → Untarred
stop r e = record { run = r; error = some e }

-- What io.Copy in writeCapped copies under a limit, none when the budget is below zero, and the byte
-- that the probe finds after it.
unfoldable pub copied : Option ℕ → Bytes → Bytes
copied none content = []
copied (some limit) content = take limit content

unfoldable pub probed : Option ℕ → Bytes → Bytes
probed none content = take 1 content
probed (some limit) content = take 1 (drop limit content)

unfoldable pub reads_error : Option ℕ → Bytes → Bool → Bool
reads_error none content broken = false
reads_error (some limit) content broken = broken && ltb (length content) limit

-- filepath.Rel(dest, dst) fails, or leads out of the destination.
unfoldable pub leads_out : Option Bytes → Bool
leads_out none = true
leads_out (some r) = eq_bytes r (codes "..") || has_prefix r (codes "../")

module _ (host : Host) (cfg : UntarConfig) where
  -- The remaining budget of bytes.
  unfoldable pub remaining : ℕ → Option ℕ
  remaining written =
      let cap = cfg.upload_length * size_factor in
      if ltb cap written then none else some (cap - written)

  abbrev pub did : Run → Action → Run
  did r a = record r { actions = r.actions ++ a ∷ [] }

  -- Calls on the file system, up to one that fails.
  unfoldable pub attempt : Run → List Action → Result Run Run
  attempt r [] = ok r
  attempt r (a ∷ rest) =
      let after = attempt (did r a) rest in if host.succeeds r.actions a then after else err r

  -- An entry that was unpacked, or the error of a call.
  unfoldable pub counted : Result Run Run → Result Untarred Run
  counted (err r) = err (stop r other)
  counted (ok r) = ok (record r { entries = suc r.entries })

  -- Writing an open file, closing it and setting its mode.
  unfoldable pub write_file : Run → Entry → Bytes → Result Untarred Run
  write_file r e dst =
      let limit = remaining r.written in
      let body = copied limit e.content in
      let probe = probed limit e.content in
      elim (host.short_write r.actions body) [
        | some k ↦
            let r' = record r {
              written = r.written + length (take k body);
              actions = r.actions ++ write dst (take k body) ∷ close dst ∷ [];
            } in
            err (stop r' other)
        | none ↦
            let r' = record r {
              written = r.written + length body + length probe;
              actions = r.actions ++ write dst (body ++ probe) ∷ close dst ∷ [];
            } in
            if not (is_nil probe)
            then err (stop r' too_large)
            else if reads_error limit e.content e.broken
            then err (stop r' other)
            else if not (host.succeeds (r.actions ++ write dst body ∷ []) (close dst))
            then err (stop r' other)
            else counted (attempt r' (chmod dst file_mode ∷ []))
      ]

  -- A regular file.
  unfoldable pub extract_file : Run → Entry → Bytes → Result Untarred Run
  extract_file r e dst = elim e.size [
    | none ↦ err (stop r too_large)
    | some size ↦
        if ltb cfg.upload_length size
        then err (stop r too_large)
        else elim (attempt r (mkdir_all (host.dir dst) ∷ open_new dst ∷ [])) [
          | err r' ↦ err (stop r' other)
          | ok r' ↦ write_file r' e dst
        ]
  ]

  -- One entry, after the rules on it.
  unfoldable pub extract_entry : Run → Entry → Result Untarred Run
  extract_entry r e =
      let dst = host.join_path cfg.dest_dir (host.clean e.name) in
      if e.pax_path || e.pax_linkpath
      then err (stop r pax_override)
      else if not (valid_typeflag e.typeflag)
      then err (stop r typeflag_error)
      else if not (valid_untar_name e.name)
      then err (stop r name_invalid)
      else if has_path_traversal e.name e.typeflag
      then err (stop r path_traversal)
      else if leads_out (host.rel cfg.dest_dir dst)
      then err (stop r path_traversal)
      else if e.typeflag == type_dir
      then counted (attempt r (mkdir_all dst ∷ chmod dst dir_mode ∷ []))
      else extract_file r e dst

  unfoldable pub entry_cap : ℕ
  entry_cap = if cfg.max_entries == 0 then max_entries_default else cfg.max_entries

  -- The loop of Untar, over entries that end, or break off.
  unfoldable pub untar_from : Bool → Run → List Entry → Untarred
  untar_from breaks r [] =
      if leb entry_cap r.entries
      then stop r too_many
      else if breaks
      then stop r other
      else record { run = r; error = none }
  untar_from breaks r (e ∷ es) =
      if leb entry_cap r.entries
      then stop r too_many
      else elim (extract_entry r e) [ err u ↦ u | ok r' ↦ untar_from breaks r' es ]

  -- Untar
  unfoldable pub untar : Bool → List Entry → Untarred
  untar breaks es = untar_from breaks (record { entries = 0; written = 0; actions = [] }) es
