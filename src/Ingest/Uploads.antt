-- ===== src/Ingest/Uploads.antt =====
-- internal/ingest/archives/store.go: the uploads in flight and their counts by source. The lock makes
-- each call one step; the hasher, the parsed metadata and the lock of an upload are left out, and what
-- crypto/rand and the clock give is an argument.
pub mod Counted
use glovebox.Prelude.{
  ℕ, suc, ◌-◌, Bool, true, false, leb, List, [], ◌∷◌, length, Bytes, eq_bytes, Option, none, some,
  if◌then◌else◌,
}
use glovebox.Prelude.Result.{Result, ok, err}
use glovebox.Journal.Fields.{Assoc, find, put, delete}

pub record UploadState : Type 0 where
  pub id : Bytes
  pub source_id : Bytes
  pub archive_id : Bytes
  pub upload_length : ℕ
  pub offset : ℕ
  pub created_at : ℕ
  pub last_activity : ℕ

pub record StoreConfig : Type 0 where
  pub per_source_max_concurrent : ℕ
  pub global_max_concurrent : ℕ

pub record Store : Type 0 where
  pub uploads : Assoc UploadState
  pub per_src : Assoc ℕ

pub data UploadError : Type 0 where
  concurrency_per_source concurrency_global upload_not_found rand_failed id_collision : UploadError

-- NewStore
abbrev pub new_store : Store
new_store = record { uploads = []; per_src = [] }

-- s.perSrc[source], zero for a missing one
unfoldable pub count_of : Assoc ℕ → Bytes → ℕ
count_of per_src source = elim (find per_src source) [ none ↦ 0 | some n ↦ n ]

-- Registering an upload with a new id.
unfoldable pub register : Store → UploadState → Store
register s st = record {
  uploads = put s.uploads st.id st;
  per_src = put s.per_src st.source_id (suc (count_of s.per_src st.source_id));
}

-- Create: `new_id` is what newUploadID returns, none when it fails.
unfoldable pub create :
    StoreConfig
    → Store
    → Option Bytes
    → ℕ
    → Bytes
    → Bytes
    → ℕ
    → Store × Result UploadError UploadState
create cfg s new_id now source archive_id upload_length =
    if leb cfg.global_max_concurrent (length s.uploads)
    then (s, err concurrency_global)
    else if leb cfg.per_source_max_concurrent (count_of s.per_src source)
    then (s, err concurrency_per_source)
    else elim new_id [
      | none ↦ (s, err rand_failed)
      | some id ↦ elim (find s.uploads id) [
        | some _ ↦ (s, err id_collision)
        | none ↦
            let st : UploadState = record {
              id = id;
              source_id = source;
              archive_id = archive_id;
              upload_length = upload_length;
              offset = 0;
              created_at = now;
              last_activity = now;
            } in
            (register s st, ok st)
      ]
    ]

-- Get
unfoldable pub get : Store → Bytes → Bytes → Result UploadError UploadState
get s id source = elim (find s.uploads id) [
  | none ↦ err upload_not_found
  | some st ↦ if eq_bytes st.source_id source then ok st else err upload_not_found
]

-- The counter of a source, one less, and gone when none is left.
unfoldable pub uncount : Assoc ℕ → Bytes → Assoc ℕ
uncount per_src source =
    let n = count_of per_src source in
    if leb n 1 then delete per_src source else put per_src source (n - 1)

-- Remove
unfoldable pub remove : Store → Bytes → Store
remove s id = elim (find s.uploads id) [
  | none ↦ s
  | some st ↦ record { uploads = delete s.uploads id; per_src = uncount s.per_src st.source_id }
]

-- Any sequence of calls.
pub data Call : Type 0 where
  create_call : Option Bytes → ℕ → Bytes → Bytes → ℕ → Call
  remove_call : Bytes → Call

unfoldable pub serve : StoreConfig → Store → Call → Store
serve cfg s (create_call new_id now source archive_id upload_length) =
    (create cfg s new_id now source archive_id upload_length).0
serve cfg s (remove_call id) = remove s id

unfoldable pub serve_all : StoreConfig → Store → List Call → Store
serve_all cfg s [] = s
serve_all cfg s (c ∷ cs) = serve_all cfg (serve cfg s c) cs
