-- ===== src/Ingest/Metadata/Checked.antt =====
-- What the metadata that internal/ingest/archives/metadata.go accepts satisfies.
use glovebox.Prelude.{
  ℕ, ◌≡◌, ◌≢◌, ◌≤◌, refl, sym, ◌∙◌, ◌⊎◌, inl, inr, true, false, not, ltb, ◌==◌, List, [], ◌∷◌, ◌++◌,
  all, arith, length, Bytes, codes, eq_bytes→eq, is_nil, Option, none, some, if◌then◌else◌,
  Bool-cases, Option-cases,
}
use glovebox.Prelude.Result.{ok, err, fail_if, ◌>>◌, >>=-ok, Result-cases, ok-injective}
use glovebox.Prelude.Join.{Lacks}
use glovebox.Prelude.Utf8.{is_utf8}
use mathlib.Core.Path.{subst}
use glovebox.Journal.Fields.{Assoc, find}
use glovebox.Ingest.Untar.{split, contains}
use glovebox.Ingest.Untar.Names.{contains-append}
use glovebox.Staging.Audience.{validate_audience}
use glovebox.Staging.Audience.Rules.{IsAllowed, validate_audience_iff}
use glovebox.Ingest.Metadata.{
  Metadata, MediaShape, media_allow_list, requires_provenance, is_file_char, matches,
  matches_archive_id, matches_filename, matches_sha256, has_control_char, value_of, check_fields,
  check_provenance, read_audience, read_fields, has_pair, check_metadata, decode_pairs,
  parse_upload_metadata, invalid, missing, size_mismatch, reserved_key, too_long,
}

-- A name that is one component of a path: some characters, no slash, not "." or "..".
abbrev pub OneComponent : Bytes → Type 0
OneComponent s = Lacks b'/' s × (s ≢ []) × (s ≢ codes ".") × (s ≢ codes "..")

-- A text of 1 to 256 bytes without control characters.
abbrev pub ShortText : Bytes → Type 0
ShortText s = (s ≢ []) × (length s ≤ 256) × (has_control_char s ≡ false)

abbrev pub Provenance : Metadata → Type 0
Provenance m =
    (m.acq_provider ≢ [])
    × ShortText m.acq_account_id
    × (m.acq_auth_method ≡ codes "browser_session")
    × ShortText m.data_subject

abbrev AllowedAudience : Metadata → Option (List Bytes) → Type 0
AllowedAudience m none = Unit {0}
AllowedAudience m (some tokens) = IsAllowed tokens (not (is_nil m.data_subject))

-- The archive id is one component of a path; the file name has no slash and no two dots together; the path
-- in the archive is short valid UTF-8 without control characters; the digest has 64 characters; the
-- media type is known, and the provenance that it asks for is there; the audience is allowed.
pub record IsChecked (m : Metadata) : Type 0 where
  pub id : OneComponent m.archive_id
  pub id_short : length m.archive_id ≤ 128
  pub name : Lacks b'/' m.archive_filename × (m.archive_filename ≢ [])
  pub name_short : length m.archive_filename ≤ 256
  pub no_dots : (xs ys : Bytes) → m.archive_filename ≢ xs ++ (codes ".." ++ ys)
  pub path_decodes : is_utf8 m.subtree_relative_path ≡ true
  pub path_plain : has_control_char m.subtree_relative_path ≡ false
  pub path_short : length m.subtree_relative_path ≤ 1024
  pub digest : length m.sha256 ≡ 64
  pub media : (shape : MediaShape) × (find media_allow_list m.media_type ≡ some shape)
  pub provenance : requires_provenance m.media_type ≡ true → Provenance m
  pub audience : AllowedAudience m m.audience

file_chars-Lacks : (s : Bytes) → all is_file_char s ≡ true → Lacks b'/' s
unfolding is_file_char
file_chars-Lacks [] h = tt
file_chars-Lacks (c ∷ s) h = (λ e. ground (arith, h, e), file_chars-Lacks s (ground (arith, h)))

not_nil : (s : Bytes) → is_nil s ≡ false → s ≢ []
not_nil [] h e = cc
not_nil (c ∷ s) h e = cc

only_dots : (s t : Bytes) → all (λ c. c == b'.') s ≡ false → all (λ c. c == b'.') t ≡ true → s ≢ t
only_dots s t h k e = let q = subst (λ x. all (λ c. c == b'.') x ≡ true) (sym e) k in cc

id_component :
    (s : Bytes)
    → matches_archive_id s ≡ true
    → all (λ c. c == b'.') s ≡ false
    → OneComponent s × (length s ≤ 128)
unfolding matches_archive_id matches
id_component s h d = (
  (
    file_chars-Lacks s (ground (arith, h)),
    not_nil s (ground (arith, h)),
    only_dots s (codes ".") d refl,
    only_dots s (codes "..") d refl,
  ),
  ground (arith, h),
)

check_provenance-Provenance : (m : Metadata) → check_provenance m ≡ ok tt → Provenance m
unfolding check_provenance
check_provenance-Provenance m h = (
  not_nil m.acq_provider (ground (arith, h)),
  (not_nil m.acq_account_id (ground (arith, h)), ground (arith, h), ground (arith, h)),
  eq_bytes→eq m.acq_auth_method (codes "browser_session") (ground (arith, h)),
  (not_nil m.data_subject (ground (arith, h)), ground (arith, h), ground (arith, h)),
)

check_fields_tests :
    (m : Metadata)
    → check_fields m ≡ ok tt
    → (matches_archive_id m.archive_id ≡ true)
      × (all (λ c. c == b'.') m.archive_id ≡ false)
      × (matches_filename m.archive_filename ≡ true)
      × (contains m.archive_filename (codes "..") ≡ false)
      × (length m.archive_filename ≤ 256)
      × (is_utf8 m.subtree_relative_path ≡ true)
      × (has_control_char m.subtree_relative_path ≡ false)
      × (length m.subtree_relative_path ≤ 1024)
      × (matches_sha256 m.sha256 ≡ true)
      × ((shape : MediaShape) × (find media_allow_list m.media_type ≡ some shape))
unfolding check_fields
check_fields_tests m h = (
  ground (arith, h),
  ground (arith, h),
  ground (arith, h),
  ground (arith, h),
  ground (arith, h),
  ground (arith, h),
  ground (arith, h),
  ground (arith, h),
  ground (arith, h),
  elim (Option-cases (find media_allow_list m.media_type)) [
    | inl e ↦ absurd (ground (arith, h, e))
    | inr t ↦ t
  ],
)

name_component : (s : Bytes) → matches_filename s ≡ true → Lacks b'/' s × (s ≢ [])
unfolding matches_filename
name_component s h = (file_chars-Lacks s (ground (arith, h)), not_nil s (ground (arith, h)))

digest_length : (s : Bytes) → matches_sha256 s ≡ true → length s ≡ 64
unfolding matches_sha256
digest_length s h = ground (arith, h)

-- The audience is read last.
fields-IsChecked :
    (m : Metadata) (audience : Option (List Bytes))
    → check_fields m ≡ ok tt
    → (requires_provenance m.media_type ≡ true → Provenance m)
    → AllowedAudience m audience
    → IsChecked (record m { audience = audience })
fields-IsChecked m audience f p a =
    let t = check_fields_tests m f in
    let i = id_component m.archive_id t.0 t.1 in
    record {
      id = i.0;
      id_short = i.1;
      name = name_component m.archive_filename t.2;
      name_short = t.4;
      no_dots = λ xs ys. contains-append m.archive_filename (codes "..") xs ys t.3;
      path_decodes = t.5;
      path_plain = t.6;
      path_short = t.7;
      digest = digest_length m.sha256 t.8;
      media = t.9;
      provenance = p;
      audience = a;
    }

read_audience_cases :
    (raw : Assoc Bytes) (m out : Metadata)
    → read_audience raw m ≡ ok out
    → (out ≡ m)
      ⊎ ((tokens : List Bytes) × (out ≡ record m { audience = some tokens })
          × IsAllowed tokens (not (is_nil m.data_subject)))
unfolding read_audience
read_audience_cases raw m out h =
    let value = value_of raw (codes "audience") in
    let tokens = split b',' value in
    elim (Bool-cases (is_nil value)) [
      | inl e ↦ inl (sym (ok-injective (rw (read_audience, e) at h)))
      | inr e ↦
          elim (Result-cases (validate_audience (some tokens) (not (is_nil m.data_subject)))) [
            | inr (why, v) ↦ absurd (cc (rw (read_audience, e, v) at h))
            | inl (done, v) ↦ inr (
              tokens,
              sym (ok-injective (rw (read_audience, e, v) at h)),
              (validate_audience_iff tokens (not (is_nil m.data_subject))).1.0 v,
            )
          ]
    ]

check_metadata-IsChecked :
    (raw : Assoc Bytes) (size : ℕ) (out : Metadata)
    → check_metadata raw (read_fields raw size) ≡ ok out
    → IsChecked out × (out.size_bytes ≡ size)
unfolding check_metadata
check_metadata-IsChecked raw size out h =
    let m = read_fields raw size in
    let (u, f, g) = >>=-ok (check_fields m) _ h in
    let (w, p, a) =
      >>=-ok (if requires_provenance m.media_type then check_provenance m else ok tt) _ g in
    let provenance = λ (e : requires_provenance m.media_type ≡ true).
      check_provenance-Provenance m (ground (arith, p, e)) in
    elim (read_audience_cases raw m out a) [
      | inl q ↦
          subst (λ (x : Metadata). IsChecked x × (x.size_bytes ≡ size)) (sym q)
            (fields-IsChecked m none f provenance tt, refl)
      | inr (tokens, q, allowed) ↦
          subst (λ (x : Metadata). IsChecked x × (x.size_bytes ≡ size)) (sym q)
            (fields-IsChecked m (some tokens) f provenance allowed, refl)
    ]

has_pair-false : (raw : Assoc Bytes) (k : Bytes) → has_pair raw k ≡ false → find raw k ≡ none
unfolding has_pair
has_pair-false raw k h = elim (Option-cases (find raw k)) [
  | inl e ↦ e
  | inr (v, e) ↦ absurd (cc (rw (has_pair, e) at h))
]

sized_metadata-IsChecked :
    (size : Option ℕ) (raw : Assoc Bytes) (upload_length : ℕ) (m : Metadata)
    → elim size [
      | none ↦ err invalid
      | some n ↦
          fail_if (not (n == upload_length)) size_mismatch >> check_metadata raw (read_fields raw n)
    ]
      ≡ ok m
    → IsChecked m × (m.size_bytes ≡ upload_length)
sized_metadata-IsChecked none raw upload_length m h = absurd (cc h)
sized_metadata-IsChecked (some n) raw upload_length m h =
    let (u, f, g) = >>=-ok (fail_if (not (n == upload_length)) size_mismatch) _ h in
    let (checked, size) = check_metadata-IsChecked raw n m g in (checked, size ∙ ground (arith, f))

module _ (decode64 : Bytes → Option Bytes) (trim_space : Bytes → Bytes)
    (parse_int : Bytes → Option ℕ) where
  -- What holds of a header that is accepted.
  abbrev pub IsAccepted : Bytes → ℕ → Metadata → Type 0
  IsAccepted header upload_length m =
      IsChecked m
      × (m.size_bytes ≡ upload_length)
      × (length header ≤ 4096)
      × ((raw : Assoc Bytes) × (decode_pairs decode64 trim_space parse_int [] (split b',' header)
            ≡ ok raw)
          × (find raw (codes "delivered_by") ≡ none)
          × (find raw (codes "delivered_at") ≡ none))

  -- An accepted header has at most 4096 bytes and no pair that only the server sets; what it says is
  -- checked, and the size is the declared length of the upload.
  pub parse_upload_metadata-IsAccepted :
      (header : Bytes) (upload_length : ℕ) (m : Metadata)
      → parse_upload_metadata decode64 trim_space parse_int header upload_length ≡ ok m
      → IsAccepted header upload_length m
  unfolding parse_upload_metadata
  parse_upload_metadata-IsAccepted header upload_length m h =
      let (u, f, g) = >>=-ok (fail_if (ltb 4096 (length header)) too_long) _ h in
      let (raw, d, k) =
        >>=-ok (decode_pairs decode64 trim_space parse_int [] (split b',' header)) _ g in
      let (v, by, l) = >>=-ok (fail_if (has_pair raw (codes "delivered_by")) reserved_key) _ k in
      let (w, at_, n) = >>=-ok (fail_if (has_pair raw (codes "delivered_at")) reserved_key) _ l in
      let (x, given, o) =
        >>=-ok (fail_if (is_nil (value_of raw (codes "size_bytes"))) missing) _ n in
      let (checked, size) =
        sized_metadata-IsChecked (parse_int (value_of raw (codes "size_bytes"))) raw upload_length m
          o in
      (
        checked,
        size,
        ground (arith, f),
        (
          raw,
          d,
          has_pair-false raw (codes "delivered_by") (ground (arith, by)),
          has_pair-false raw (codes "delivered_at") (ground (arith, at_)),
        ),
      )
