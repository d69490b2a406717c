-- ===== src/Examples/Archives.antt =====
-- An archive of a directory with a file, and the uploads of two sources: internal/ingest/archives.
use glovebox.Prelude.{
  ◌≡◌, ◌↔◌, refl, true, false, List, [], ◌∷◌, ◌++◌, All, Bytes, codes, eq_bytes, has_prefix, none,
  some, arith, Bool, if◌then◌else◌, some-injective, ap, ◌∙◌,
}
use glovebox.Prelude.Utf8.{is_utf8, runes?}
use glovebox.Journal.Fields.{find}
use glovebox.Ingest.Untar.{
  Entry, UntarConfig, Host, type_dir, type_reg, untar, untar_from, entry_cap, extract_entry,
  valid_typeflag, valid_untar_name, split, split_first, has_path_traversal, contains, ends_with,
  has_drive, leads_out, counted, attempt, copied, extract_file, probed, reads_error, remaining,
  write_file,
}
use glovebox.Ingest.Untar.Runs.{Safe, untar-Safe}
use glovebox.Ingest.Untar.Budget.{Within, untar-Within}
use glovebox.Ingest.Untar.Calls.{all_calls, untar_calls}
use glovebox.Ingest.Uploads.{
  UploadState, StoreConfig, Store, new_store, Call, create_call, remove_call, serve_all, get,
}
use glovebox.Ingest.Uploads.Counted.{IsCounted, serve_all-IsCounted, get_private}

-- A disk on which every call succeeds, and paths that need no cleaning.
abbrev host : Host
host = record {
  clean = λ path. path;
  join_path = λ a b. a ++ (codes "/" ++ b);
  rel = λ a b. some (codes "inside");
  dir = λ path. path;
  succeeds = λ done call. true;
  short_write = λ done bytes. none;
}

abbrev config : UntarConfig
config = record { dest_dir = codes "/tmp/x"; upload_length = 4; max_entries = 3 }

abbrev folder : Entry
folder = record {
  pax_path = false;
  pax_linkpath = false;
  typeflag = type_dir;
  name = codes "a";
  size = some 0;
  content = [];
  broken = false;
}

abbrev note : Entry
note = record folder {
  typeflag = type_reg;
  name = codes "a/b";
  size = some 2;
  content = codes "hi";
}

abbrev archive : List Entry
archive = folder ∷ note ∷ []

untar-Safe_example : All (Safe host config archive) ((untar host config false archive).run).actions
untar-Safe_example = untar-Safe host config false archive

untar-Within_example : Within host config 2 (untar host config false archive)
untar-Within_example = untar-Within host config false archive

archive_ends : (untar host config false archive).error ≡ none
unfolding untar untar_from entry_cap extract_entry valid_typeflag valid_untar_name is_utf8 runes?
    split split_first has_path_traversal has_prefix contains ends_with has_drive eq_bytes leads_out
    counted attempt copied extract_file probed reads_error remaining write_file
archive_ends = refl

untar_calls_example :
    ((untar host config false archive).run).actions ≡ all_calls host config archive
untar_calls_example = untar_calls host config false archive archive_ends

abbrev caps : StoreConfig
caps = record { per_source_max_concurrent = 2; global_max_concurrent = 3 }

abbrev some_calls : List Call
some_calls =
    create_call (some (codes "u1")) 1 (codes "mail") (codes "m") 10
    ∷ create_call (some (codes "u2")) 2 (codes "photos") (codes "p") 10
    ∷ remove_call (codes "u1")
    ∷ []

serve_all-IsCounted_example : IsCounted caps (serve_all caps new_store some_calls)
serve_all-IsCounted_example = serve_all-IsCounted caps some_calls

abbrev photo : UploadState
photo = record {
  id = codes "u2";
  source_id = codes "photos";
  archive_id = codes "p";
  upload_length = 10;
  offset = 0;
  created_at = 2;
  last_activity = 2;
}

abbrev one_upload : Store
one_upload = record { uploads = (codes "u2", photo) ∷ []; per_src = (codes "photos", 1) ∷ [] }

found_photo :
    (here : Bool) (st : UploadState) → (if here then some photo else none) ≡ some st → photo ≡ st
found_photo true st e = some-injective e
found_photo false st e = cc

not_mail : (st : UploadState) → photo ≡ st → st.source_id ≡ codes "mail" → ⊥
not_mail st e o = ground (arith, ap (λ (x : UploadState). x.source_id) e ∙ o)

-- Another source sees in a store with an upload what it sees in an empty one.
not_mine :
    (id : Bytes) (st : UploadState)
    → st.source_id ≡ codes "mail"
    → (find one_upload.uploads id ≡ some st) ↔ (find new_store.uploads id ≡ some st)
unfolding find
not_mine id st o =
    (λ e. absurd (not_mail st (found_photo (eq_bytes (codes "u2") id) st e) o), λ e. cc)

get_private_example :
    get one_upload (codes "u2") (codes "mail") ≡ get new_store (codes "u2") (codes "mail")
get_private_example = get_private one_upload new_store (codes "mail") not_mine (codes "u2")
