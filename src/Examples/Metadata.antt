-- ===== src/Examples/Metadata.antt =====
-- The header of an upload of a mailbox: internal/ingest/archives/metadata.go.
use glovebox.Prelude.{
  ℕ, ◌≡◌, refl, [], Bytes, codes, has_prefix, ◌++◌, eq_bytes, Option, none, some, if◌then◌else◌,
}
use glovebox.Prelude.Result.{ok}
use glovebox.Prelude.Utf8.{is_utf8, runes?}
use glovebox.Journal.Fields.{find, put}
use glovebox.Ingest.Untar.{split, split_first, contains}
use glovebox.Ingest.Metadata.{
  Metadata, requires_provenance, is_file_char, matches, matches_archive_id, matches_filename,
  matches_matcher_id, matches_provider, matches_sha256, has_control_char, value_of, cut_space,
  check_fields, read_audience, has_pair, check_metadata, decode_pairs, parse_upload_metadata,
}
use glovebox.Ingest.Metadata.Checked.{IsAccepted, parse_upload_metadata-IsAccepted}

abbrev digest : Bytes
digest = codes "0123456789abcdef0123456789abcdef0123456789abcdef0123456789abcdef"

abbrev header : Bytes
header =
    codes "archive_id a.1,archive_filename b.mbox,subtree_relative_path in,media_type archive/mbox,"
    ++ (codes "matcher_id m/1,provider mail,size_bytes 7,sha256 " ++ digest)

-- The values of this header stand for themselves, and its only number is 7.
abbrev decode64 : Bytes → Option Bytes
decode64 value = some value

abbrev trim_space : Bytes → Bytes
trim_space s = s

abbrev parse_int : Bytes → Option ℕ
parse_int s = if eq_bytes s (codes "7") then some 7 else none

abbrev mailbox : Metadata
mailbox = record {
  archive_id = codes "a.1";
  archive_filename = codes "b.mbox";
  subtree_relative_path = codes "in";
  media_type = codes "archive/mbox";
  matcher_id = codes "m/1";
  provider = codes "mail";
  sha256 = digest;
  size_bytes = 7;
  acq_provider = [];
  acq_account_id = [];
  acq_auth_method = [];
  data_subject = [];
  audience = none;
}

header_accepted : parse_upload_metadata decode64 trim_space parse_int header 7 ≡ ok mailbox
unfolding parse_upload_metadata decode_pairs split split_first cut_space eq_bytes find put value_of
    has_pair check_metadata check_fields requires_provenance read_audience is_file_char matches
    matches_archive_id matches_filename matches_matcher_id matches_provider matches_sha256
    has_control_char contains is_utf8 runes? has_prefix
header_accepted = refl

parse_upload_metadata-IsAccepted_example : IsAccepted decode64 trim_space parse_int header 7 mailbox
parse_upload_metadata-IsAccepted_example =
    parse_upload_metadata-IsAccepted decode64 trim_space parse_int header 7 mailbox header_accepted
