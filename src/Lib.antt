-- ===== src/Lib.antt =====
-- The event pipeline of the TradeJournal MT5 cloud worker.
--
-- The worker watches an MT5 account through snapshots that a bridge in the terminal writes. Two
-- successive snapshots are compared into raw events (worker/event_detector.py), each raw event
-- becomes a payload with an id that a retry repeats (worker/event_normalizer.py), the payloads wait
-- in a persistent queue (worker/event_outbox.py), and a sender posts them to the ingestion API with
-- bounded retries (worker/event_sender.py). The agent around it claims jobs from a control plane
-- and runs a handler under a lease (windows_agent/job_runner.py), with its state in a file that is
-- replaced as a whole (windows_agent/state_store.py).
--
-- Prelude holds the shared helpers: Boolean tests, lists, integers, dictionaries in insertion order
-- (Prelude/Dict), occurrence counts and sorting. Value is the data of rows, events and payloads,
-- Python's None, bool, int, float and str, with Python's `==`, `<`, truth, `str()` and `strip()`;
-- a float is its binary64 pattern. Value/Float is Python's arithmetic of floats, the exact result
-- rounded to nearest, ties to even, and Value/Order their order. Json is a JSON document with these
-- values at its leaves.
--
-- Detector is worker/event_detector.py: `detect_events` and its three loops, with the events it
-- builds in Detector/Rows; Rounds and Exact count the events of a kind and a ticket, Quiet is about
-- equal snapshots.
-- Normalizer is worker/event_normalizer.py: `validate_event_preflight`, `build_event_id` and
-- `normalize_event`, with the tables in Normalizer/Fields; Forward, Payload and Identity hold the
-- proofs.
-- Outbox is worker/event_outbox.py: Outbox/Defs has `enqueue_many`, `drain` and the replacement of
-- the file, Outbox/Load the reading of both file formats; Enqueue, Drain, Conserve, Durable,
-- Storage and Checked hold the proofs. The state in memory and the document in the file are separate fields,
-- and each write ends published, refused or interrupted after the replacement.
-- Sender is worker/event_sender.py: `send` with the pauses it makes, and `sanitize_payload_for_log`
-- in Sender/Sanitize; Retry and Exhausted hold the proofs.
-- StateStore is `atomic_json` of windows_agent/state_store.py, and JobRunner is `run_once` of
-- windows_agent/job_runner.py, in a monad of a result and a world that keeps the local file and the
-- transitions asked for. An Environment answers each call; the lease keeper's thread is the list of
-- the replies that it got, of which the first that is no object ends the thread unreported. Lease,
-- Truthful and Entitled hold the proofs.
-- ApiClient is the checks of windows_agent/api_client.py on the answers to a heartbeat and to a
-- transition; Contract sets them against the job runner.
-- LiveSync is windows_agent/worker/live_sync.py: LiveSync/Symbols is `_authoritative_symbol` with
-- `_identifiers` and `_symbols_from_rows`, LiveSync/Records is `_mql5_file_event`, LiveSync/Windows
-- is `detect_windows_events`, LiveSync/Volumes and LiveSync/Merge are
-- `_merge_event_stream_with_snapshot`, and LiveSync/Poll is `poll_once`, from the outbox on in
-- LiveSync/Poll/Commit, with the ids of windows_agent/worker/dedup.py as a list. What the adapter,
-- the sink and the stores do in a poll is an Environment. Usable, Replay, Echo, Poll/Durable and
-- Poll/Safe hold proofs.
-- Excursions is windows_agent/worker/excursion_tracker.py, the rows of the open positions with their
-- extrema; Excursions/Peak and Excursions/Extrema hold the proofs.
-- EventFiles is the queue of the bridge in windows_agent/worker/mql5_file_adapter.py, `pending_events`
-- and `acknowledge_events` with the deletion of the files; Kept and Pending hold the proofs.
-- FileSnapshot is `snapshot` of the same adapter with its 26 attempts; Coherent holds the proofs.
-- HistorySync is windows_agent/worker/history_sync.py: where `HistorySync.run` starts and the windows
-- of its loop, in microseconds, and in HistorySync/Run the loop with its sinks and its checkpoint;
-- Cover, Round, Resume and Finish hold the proofs.
-- HistoryArchive is windows_agent/worker/history_archive.py: `_groups`, the document of an import and
-- `load_or_create_history_document`; Slices, Groups and Reuse hold the proofs.
-- Supervisor is windows_agent/event_supervisor.py: `_connection_ids` and `poll_once`, with what a
-- connection's processing did as a parameter, and `canonical_uuid` of windows_agent/security.py;
-- Ready and Isolated hold the proofs.
-- Tests holds runs of the definitions and the theorems at concrete inputs.
--
-- The components share their data: the raw events of the detector are the normalizer's rows, the
-- outbox holds payloads, and it drains through results of the sender's type.
--
-- Loops are recursion on the list or on the attempts that are left, so none needs fuel but four: the
-- binary digits of a number, where the number plus one is enough since each step halves; its decimal
-- digits, where the number plus one is enough since each step divides by ten; the windows of
-- HistorySync, where the distance from the start to now is enough since each window moves the cursor
-- on; and the slices of HistoryArchive, where the length is enough since no slice is empty.
--
-- Not modelled: requests, logging, the clock, fsync, file permissions and symbolic-link checks; the
-- outcome of such a call is a parameter. json.dumps, SHA-256, str.lower, str.upper, UUID, the reading
-- of a text as a float and the shortest decimal text of a float are parameters too. Where `float` of
-- an int would overflow, the model says that it is no number. On the disk json.dump sorts the keys of
-- a document, and the model keeps them in the order of the dictionary. Rows that are no dictionaries
-- raise in the source and are outside the model, and so is a count of samples of the excursion
-- tracker that is no int. The endless loops around the polls, the rest of
-- the file adapter, the balance of the history, provisioning, broker discovery and the laboratory
-- tools are not modelled here.

pub mod Prelude
pub mod Value
pub mod Detector
pub mod Sender
pub mod Json
pub mod Outbox
pub mod Normalizer
pub mod StateStore
pub mod JobRunner
pub mod LiveSync
pub mod HistorySync
pub mod ApiClient
pub mod Excursions
pub mod HistoryArchive
pub mod Supervisor
pub mod EventFiles
pub mod FileSnapshot
mod Tests
