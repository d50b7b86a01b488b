-- ===== src/Lib.antt =====
-- EDP billing file upload: the service that carries a segment's billing files of one trade date to
-- the CBOS back office. POST /batches hands a manifest of files to a queue; a worker takes the
-- batch, resolves CBOS's process and its slots (Table2), matches each file to a slot's upload rule,
-- sends it in chunks (Step 5), registers it (Step 7), checks that no required slot is left empty,
-- and records a verdict on the batch's row and on each file's audit row.
--
-- The parts and their files:
--   * Base: Boolean tests, lists over the native numbers, and text. A text is the list of its code
--     points; `lower`, `upper` and `strip` are the ASCII cases of Python's methods.
--   * Cbos/Value, Cbos/Reservation, Cbos/Rule: app/clients/cbos_client.py, the JSON scalars,
--     UploadCandidate (expects_a_file, already_in_cbos, needs_upload), ProcessReservation,
--     build_reservation and UploadRule.
--   * Matching: app/services/upload_matching.py, _pattern_matches, _disambiguate, match_file
--     (Matching), _count_columns (Matching/Columns) and pathlib's stem and suffix
--     (Matching/FileName).
--   * Outcome: app/services/upload_outcome.py, the seven outcomes of a file.
--   * Files: app/services/file_service.py, _move_file over a list of the files that exist.
--   * Audit: app/repositories/uploaded_file_repository.py over app/models/uploaded_file.py, with the
--     UNIQUE constraint on file_path.
--   * Batches: app/repositories/batch_repository.py over app/models/batch.py.
--   * Queue: app/core/queue.py, SegmentBatchTask.key and BatchQueue, as a step relation in which any
--     number of workers take turns.
--   * Lane: app/services/upload_service.py and app/workers/upload_worker.py. Lane/Action is the state
--     passing monad of its statements: a World holds the server, the disk, both tables and the trace
--     of the calls to CBOS, and a statement answers or raises. Lane/Client is the interface of the
--     client, and Lane/Chunks its upload_file (app/clients/cbos_client.py): the chunks of Step 5 and
--     the attempts at each. Lane/Setup goes up to the reservation, Lane/Transfer over the files,
--     Lane/Gate and Lane/Finish to the end, Lane/Batch has process_batch in both modes, Lane/Worker
--     one round of the worker. Lane/Calls and Lane/Outcomes are rules that carry a statement about
--     the calls, or about the batches table, through the statements; Lane/Runs does it for the calls of
--     one run, with what the statements before answered.
--   * UploadName: app/services/cbos_filename.py, resolve_upload_name over the decoded reply of Step 40
--     (`none` where the call failed), with dates as day numbers.
--   * OptionalSlots: app/services/optional_slots.py, _load with its cache, allowlisted and reload.
--   * SafePath: app/core/safe_path.py, resolve_within and assert_within over paths as lists of
--     segments.
--   * Manifest: app/services/manifest_service.py, load_manifest, verify_checksums and to_task.
--   * BatchService: app/services/batch_service.py, submit_manifest, rescan, get_batch_details and
--     request_proceed over the batches table and the queue.
--   * Speede: the NSDL SPEED-e uploads. Speede/Catalogue and Speede/Folder are the catalogue, the
--     selection and the numbered files of app/services/nsdl_speede_service.py, Speede/Table is
--     app/repositories/nsdl_speede_upload_repository.py over app/models/nsdl_speede_upload.py,
--     Speede/Service has _process_entry, process_upload and check_status (Steps, Requests), and
--     Speede/Client is app/clients/nsdl_speede_client.py: the readings and the local validation
--     (Wire), the chunks (Chunks), the polls (Polling) and the mock adapter (Mock).
--     Base/Program is the monad of its statements, with rules for what they leave behind.
--   * Tests: concrete inputs, among them a whole batch on a client that answers everything.
--
-- How they interact: Lane calls Matching, UploadName, Outcome, Files, Audit and Batches, and meets the client
-- only through the record Lane.Client.Env, whose functions take the server's state and return what
-- they answer or raise with the state after it. Nothing is assumed of these functions. BatchService
-- takes a manifest from Manifest, which confines its paths by SafePath, and puts its task into Queue.
-- Speede/Service meets its client through the record Speede.Service.Client, which
-- Speede/Client/Interface fills; it relies on the law IsLawful, which is proved there.
--
-- Choices. Files.first_free runs on fuel, one more than the files on disk, which is enough. The
-- retry loops recur on the attempts left, settings.cbos_max_retries and
-- settings.cbos_chunk_retry_attempts. The contents of files do not change while a batch runs. The
-- progress of a Step 5 transfer is recorded when the transfer ends, and not while it runs. Making a
-- GUID answers always, and the database answers every statement of a batch; only the last resort,
-- the write of `mark_batch_failed`, may fail. An IntegrityError or a missing file
-- raises out of the batch, and what was written before a raise stays written. STATUS and STATUSDESC
-- are strings or null, a JSON float is its repr, and the sentences of cbos_response and of
-- status_detail are constructors. A line of a file is read without its terminator, and
-- the csv.Error of a field over csv's size limit is left out. BatchService calls `enqueue` as a whole,
-- and Queue.Step has its parts, which other threads come between.
--
-- The versions of SPEED-e files, the ids, column counts and TRANIDs that the API answers are natural
-- numbers, and numerals are ASCII digits. Polling recurs on the attempts left. In
-- BatchService, `meanwhile` is what other requests commit between the lookup of a batch id and the
-- insert of its row. `Path.resolve`, the schema of a manifest, the disk and SHA-256 are parameters.
--
-- Not modelled: logging, time stamps and folders; the HTTP adapters and the decoding of bodies in
-- app/clients/cbos_client.py and app/clients/nsdl_speede_client.py, and the latter's history call;
-- the post-trade and settlement services with their clients, repositories and models; the API
-- endpoints, configuration, database sessions, redaction, mock_cbos and scripts. The lane takes the
-- allowlist as a parameter, and not from OptionalSlots.
pub mod Base
pub mod Cbos
pub mod Matching
pub mod Outcome
pub mod Files
pub mod Audit
pub mod Batches
pub mod Queue
pub mod Lane
pub mod SafePath
pub mod Manifest
pub mod BatchService
pub mod UploadName
pub mod OptionalSlots
pub mod Speede
pub mod Tests
