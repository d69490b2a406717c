-- ===== src/Ingest/Metadata.antt =====
-- internal/ingest/archives/metadata.go: the Upload-Metadata header of an upload. The base64 decoder, the
-- trimming of spaces and the reading of a number (none when it fails or is negative) are parameters.
pub mod Checked
use glovebox.Prelude.{
  ℕ, Bool, true, false, not, ◌&&◌, ◌||◌, ltb, leb, ◌==◌, List, [], ◌∷◌, any, all, length, Bytes,
  codes, eq_bytes, is_nil, Option, none, some, if◌then◌else◌,
}
use glovebox.Prelude.Result.{Result, ok, err, fail_if, ◌>>◌, ◌>>=◌}
use glovebox.Prelude.Utf8.{is_utf8}
use glovebox.Journal.Fields.{Assoc, find, put}
use glovebox.Ingest.Untar.{split, contains}
use glovebox.Staging.Audience.{validate_audience}

pub record Metadata : Type 0 where
  pub archive_id : Bytes
  pub archive_filename : Bytes
  pub subtree_relative_path : Bytes
  pub media_type : Bytes
  pub matcher_id : Bytes
  pub provider : Bytes
  pub sha256 : Bytes
  pub size_bytes : ℕ
  pub acq_provider : Bytes
  pub acq_account_id : Bytes
  pub acq_auth_method : Bytes
  pub data_subject : Bytes
  pub audience : Option (List Bytes)

pub data MetadataError : Type 0 where
  missing invalid reserved_key unknown_media_type size_mismatch too_long : MetadataError

pub data MediaShape : Type 0 where
  media_raw media_tar : MediaShape

abbrev pub media_allow_list : Assoc MediaShape
media_allow_list =
    (codes "archive/mbox", media_raw)
    ∷ (codes "archive/google-takeout-subtree", media_tar)
    ∷ (codes "archive/generic-tarball", media_tar)
    ∷ (codes "archive/imap-export", media_raw)
    ∷ (codes "archive/walhelm-export", media_tar)
    ∷ (codes "archive/recognizer-scan", media_tar)
    ∷ []

unfoldable pub requires_provenance : Bytes → Bool
requires_provenance media_type = eq_bytes media_type (codes "archive/walhelm-export")

abbrev pub is_lower : ℕ → Bool
is_lower c = leb b'a' c && leb c b'z'

abbrev pub is_digit : ℕ → Bool
is_digit c = leb b'0' c && leb c b'9'

-- [A-Za-z0-9._-]
unfoldable pub is_file_char : ℕ → Bool
is_file_char c =
    is_lower c || (leb b'A' c && leb c b'Z') || is_digit c || c == b'.' || c == b'_' || c == b'-'

-- The expressions of the fields.
unfoldable pub matches : (ℕ → Bool) → ℕ → Bytes → Bool
matches char max s = not (is_nil s) && (all char s && leb (length s) max)

unfoldable pub matches_archive_id : Bytes → Bool
matches_archive_id s = matches is_file_char 128 s

unfoldable pub matches_filename : Bytes → Bool
matches_filename s = not (is_nil s) && all is_file_char s

unfoldable pub matches_matcher_id : Bytes → Bool
matches_matcher_id s = matches (λ c. is_file_char c || c == b'/') 256 s

unfoldable pub matches_provider : Bytes → Bool
matches_provider [] = false
matches_provider (c ∷ s) =
    is_lower c && (all (λ d. is_lower d || is_digit d || d == b'-') s && leb (length s) 63)

unfoldable pub matches_sha256 : Bytes → Bool
matches_sha256 s = all (λ c. is_digit c || (leb b'a' c && leb c b'f')) s && length s == 64

-- hasControlChar
unfoldable pub has_control_char : Bytes → Bool
has_control_char s = any (λ c. ltb c 0x20 && not (c == 0x09)) s

unfoldable pub value_of : Assoc Bytes → Bytes → Bytes
value_of raw k = elim (find raw k) [ none ↦ [] | some v ↦ v ]

-- strings.IndexByte(kv, ' '), with what is before and after.
unfoldable pub cut_space : Bytes → Option (Bytes × Bytes)
cut_space [] = none
cut_space (b ∷ s) =
    let rest = cut_space s in
    if b == b' ' then some ([], s) else elim rest [ none ↦ none | some (k, v) ↦ some (b ∷ k, v) ]

-- The checks on the names and types of the file.
unfoldable pub check_fields : Metadata → Result MetadataError (Unit {0})
check_fields m = do
  fail_if (not (matches_archive_id m.archive_id)) invalid
  fail_if (all (λ c. c == b'.') m.archive_id) invalid
  fail_if
      (not (matches_filename m.archive_filename)
        || (contains m.archive_filename (codes "..") || ltb 256 (length m.archive_filename)))
      invalid
  fail_if
      (not (is_utf8 m.subtree_relative_path)
        || (any (λ c. c == 0) m.subtree_relative_path
            || (ltb 1024 (length m.subtree_relative_path)
                || has_control_char m.subtree_relative_path)))
      invalid
  fail_if (not (matches_matcher_id m.matcher_id) || has_control_char m.matcher_id) invalid
  fail_if (not (matches_provider m.provider)) invalid
  fail_if (not (matches_sha256 m.sha256)) invalid
  elim (find media_allow_list m.media_type) [ none ↦ err unknown_media_type | some _ ↦ ok tt ]

-- The provenance that some media types need.
unfoldable pub check_provenance : Metadata → Result MetadataError (Unit {0})
check_provenance m = do
  fail_if (is_nil m.acq_provider) missing
  fail_if (not (matches_provider m.acq_provider)) invalid
  fail_if (is_nil m.acq_account_id) missing
  fail_if (ltb 256 (length m.acq_account_id) || has_control_char m.acq_account_id) invalid
  fail_if (is_nil m.acq_auth_method) missing
  fail_if (not (eq_bytes m.acq_auth_method (codes "browser_session"))) invalid
  fail_if (is_nil m.data_subject) missing
  fail_if (ltb 256 (length m.data_subject) || has_control_char m.data_subject) invalid

-- The optional audience.
unfoldable pub read_audience : Assoc Bytes → Metadata → Result MetadataError Metadata
read_audience raw m =
    let value = value_of raw (codes "audience") in
    let tokens = some (split b',' value) in
    if is_nil value then ok m else elim (validate_audience tokens (not (is_nil m.data_subject))) [
      | err why ↦ err invalid
      | ok done ↦ ok (record m { audience = tokens })
    ]

abbrev pub read_fields : Assoc Bytes → ℕ → Metadata
read_fields raw size = record {
  archive_id = value_of raw (codes "archive_id");
  archive_filename = value_of raw (codes "archive_filename");
  subtree_relative_path = value_of raw (codes "subtree_relative_path");
  media_type = value_of raw (codes "media_type");
  matcher_id = value_of raw (codes "matcher_id");
  provider = value_of raw (codes "provider");
  sha256 = value_of raw (codes "sha256");
  size_bytes = size;
  acq_provider = value_of raw (codes "acq_provider");
  acq_account_id = value_of raw (codes "acq_account_id");
  acq_auth_method = value_of raw (codes "acq_auth_method");
  data_subject = value_of raw (codes "data_subject");
  audience = none;
}

unfoldable pub has_pair : Assoc Bytes → Bytes → Bool
has_pair raw k = elim (find raw k) [ none ↦ false | some _ ↦ true ]

-- The checks after the fields were read.
unfoldable pub check_metadata : Assoc Bytes → Metadata → Result MetadataError Metadata
check_metadata raw m = do
  check_fields m
  (if requires_provenance m.media_type then check_provenance m else ok tt)
  read_audience raw m

module _ (decode64 : Bytes → Option Bytes) (trim_space : Bytes → Bytes)
    (parse_int : Bytes → Option ℕ) where
  -- The loop of decodeMetadataPairs.
  unfoldable pub decode_pairs : Assoc Bytes → List Bytes → Result MetadataError (Assoc Bytes)
  decode_pairs out [] = ok out
  decode_pairs out (kv ∷ rest) = elim (is_nil (trim_space kv)) [
    | true ↦ decode_pairs out rest
    | false ↦ elim (cut_space (trim_space kv)) [
      | none ↦ err invalid
      | some (k, v) ↦ elim (is_nil k) [
        | true ↦ err invalid
        | false ↦ elim (decode64 v) [
          | none ↦ err invalid
          | some value ↦ decode_pairs (put out k value) rest
        ]
      ]
    ]
  ]

  -- ParseUploadMetadata
  unfoldable pub parse_upload_metadata : Bytes → ℕ → Result MetadataError Metadata
  parse_upload_metadata header upload_length = do
    fail_if (ltb 4096 (length header)) too_long
    raw ← decode_pairs [] (split b',' header)
    fail_if (has_pair raw (codes "delivered_by")) reserved_key
    fail_if (has_pair raw (codes "delivered_at")) reserved_key
    fail_if (is_nil (value_of raw (codes "size_bytes"))) missing
    elim (parse_int (value_of raw (codes "size_bytes"))) [
      | none ↦ err invalid
      | some size ↦
          fail_if (not (size == upload_length)) size_mismatch
          >> check_metadata raw (read_fields raw size)
    ]
