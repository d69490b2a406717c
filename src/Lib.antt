-- ===== src/Lib.antt =====
-- Glovebox scans what connectors and importers bring in before an agent may read it, and keeps a
-- journal of records whose rows each reader sees only as an audience allows. This library models the
-- logic of its core packages and proves what they promise.
--
-- The parts, and the code they follow (paths from the root of the repository):
--   Engine.Scoring, Engine.Stream, Engine.Matcher: internal/engine/scoring.go, stream.go, matcher.go.
--     ScoreSignals is score_signals, ScanContent is scan_content, findAllOffsets is find_all_offsets.
--   Engine.Unescape: internal/engine/unescape.go. UnescapeInPlace is unescape_in_place; its decoders are
--     in Percent, FormPlus and Backslash, and return none where the code returns nil, false. Digits has
--     the hex digits as a sender writes them.
--   Scan: internal/scan/scan.go. ScanWithMetadata is scan_with_metadata: collect_signals runs the scan
--     functions over every view, and judge scores what fired.
--   Journal.Names, Journal.Scope: internal/journal/record/value.go and scope.go. ParseScope is
--     parse_scope, Canonical is canonical.
--   Journal.Access: internal/journal/access/access.go, with the grants of roster.go. Visible, Text,
--     OldValue and Notices keep their names.
--   Journal.Fields, Journal.Diff, Journal.Fold: internal/journal/record/fields.go, and
--     internal/journal/diff. Diff plans the events of a snapshot, Guard.Hold holds it back, and Fold
--     replays events into rows.
--   Journal.Apply: internal/journal/apply.go and hold.go, over the tables as a value (Types). buildEvent
--     is build_event, writePlan and loadCurrent are write_plan and load_current (Write); Apply,
--     ConfirmHeld and DiscardHeld are apply, confirm_held and discard_held, and a sequence of calls is
--     serve_all (Serve). Agrees and Refines compare what is written with the replay, Scans and Judging
--     are about verdicts, Sequences carries an invariant through any calls.
--   DailyWindow: internal/dailywindow/dailywindow.go. Covers is covers, Set.BlocksAt is
--     set_blocks_at, Schedule.BlocksAt is blocks_at, NextClear is next_clear.
--   LoginVault: the record of logins of internal/loginvault/loginvault.go. SameRecord, AttemptInProgress,
--     LoginsOn and CountLogin keep their names. Stored says, by their fields, when two records are stored alike.
--   LoginBroker: internal/loginbroker/broker.go with driver.go and brokerapi/api.go. Program has the
--     calls of Store, Driver and the clock, and programs as trees over their answers; Policy has gate
--     and the answers; Writes has commit, writeState and writeSession (with WriteStateOnce), Logins has
--     login, confirm and what is recorded of a failure, Finish and Refresh have refresh, cut where it
--     calls. Protocol watches the calls of a run, and Deferral is about the time to come back.
--   Routing.Sanitize: internal/routing/sanitize.go. SanitizeContent is sanitize_content, SanitizeField is
--     sanitize_field.
--   Ingest.RateLimit: internal/ingest/auth/ratelimit.go. AllowReject is allow_reject.
--   Ingest.Untar: internal/ingest/archives/untar.go. validUntarName, hasPathTraversal and ClassifyReason
--     keep their names in antt's spelling; the loop of Untar is untar_from over extract_entry and
--     extract_file, with writeCapped in copied and probed. Names is about the names that are accepted.
--   Ingest.Metadata: internal/ingest/archives/metadata.go. ParseUploadMetadata is parse_upload_metadata,
--     with decodeMetadataPairs as decode_pairs and its tests as check_fields, check_provenance and
--     read_audience; the expressions of the fields are tests on bytes.
--   Ingest.Uploads: internal/ingest/archives/store.go. Create, Get and Remove keep their names.
--   Staging.Audience: internal/staging/audience.go. ValidateAudience is validate_audience.
--   Prelude holds what these share; Examples applies the theorems to concrete inputs.
--
-- The scanner uses the engine; the views of an item, which the preprocessing makes, are a parameter of
-- the scanner, and Engine.Unescape models the part of it that undoes escapes. The diff uses
-- scopes and field maps, the fold replays what the diff lists, applying a snapshot writes what the diff
-- planned, and access decides about the rows that are stored.
--
-- Strings and byte slices are lists of bytes, maps are lists of entries, and a nil raw value or slice
-- is none where the code tells it from an empty one. float64 is the interface Prelude.Floats: its laws
-- are those of rounding on the non-negative numbers, and natural numbers satisfy them. Further
-- parameters are html.UnescapeString, utf8.DecodeRune for the sanitizing, the limiters of
-- golang.org/x/time/rate, the lower case of bytes.ToLower, the wall clock of a zone, what
-- json.Unmarshal reads as a date, and the renames of the type registry. Times are nanoseconds. The broker's parameters are the driver's methods that only
-- compute, the calendar, the digest of the credentials and the reduction of a text to a token; its
-- calls answer anything, also late or with another writer's record, except that no clock reads the
-- zero time. Applying snapshots has as parameters what the scanner answers on each value, the rules, the
-- guard (which Journal.Diff models), the roster, the hash of fields, the validation of a stored payload
-- and the check of the writer; a transaction is one step, since the code locks the subject, and the
-- sequence of events, while it writes.
-- Unpacking has as parameters the functions of filepath and the answers of the file system, which may
-- depend on every call before; the entries that archive/tar yields are its input. Sizes do not pass the
-- range of int64. The base64 decoder, strings.TrimSpace and the reading of a size are parameters of the
-- upload metadata.
--
-- Fuel: the substring search has a round for each byte and one more, since each hit of a needle that is
-- not empty moves on by a byte at least; BlocksAt has headroom / 15 s + 1 rounds, one for each step;
-- NextClear has 2880, the minutes of two days, and Covers 1440, those of one. The decoders count the
-- bytes of an escape still to be passed over, where the code moves its index. The loops of the broker
-- have as many rounds as the code has attempts, and those of the sanitizing as many as it writes
-- characters.
--
-- Not modelled: the texts of errors for operators, reading and printing of windows, regular expression
-- matchers, the detectors, the other views of the preprocessing, the validation of snapshots and
-- values, the journal's erasures, rescans, notes, pages and HTTP service, failures of its database, the
-- HTTP side of ingest and what it does with an upload, the routing of files, the login broker's
-- configuration, its service and the single flight of its requests, and the connectors and importers.
pub mod Prelude
pub mod Engine
pub mod Scan
pub mod Journal
pub mod DailyWindow
pub mod LoginVault
pub mod LoginBroker
pub mod Routing
pub mod Ingest
pub mod Staging
pub mod Examples
