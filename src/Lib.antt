-- ===== src/Lib.antt =====
-- ULPF Prism, a framework that collects raw security logs as evidence, recognizes and parses them
-- by source packs, and moves them over Kafka topics to normalization and storage.
--
-- The program's parts and the modules that model them:
--
--   Contracts   src/contracts: the raw event envelope (RawEvent: fields, validators, `from_bytes`,
--               `raw_bytes`, `verify_evidence`) and the parsed event (ParsedEvent, Status). Base64
--               is the standard library's codec over lists of code points; Platform holds what
--               comes from outside: SHA-256 and pydantic's test of an IP address.
--   Core        core: the registry of source packs (Registry: `reload`, `get_pack`, `match`) and
--               the engine (Engine: `process`, `_failed_event`). A pack is a record of its
--               attributes and its two calls with the ways in which they end (SourcePack). The
--               built-in format parsers (Parsers: `parse` of each, `get_parser`), and the packs that
--               a manifest describes (Manifest: `validate_manifest`, the rules; Manifest/Pack: the
--               constructor, `detect`, `parse`).
--   Collection  src/collection: the duplicate cache (Dedup), the metrics (Metrics), the archive
--               (Archive), the log of rejections (Rejected), the pipeline (Pipeline: `ingest`,
--               `reject`), the replay of archived events (Replay: `replay_events`) and the framing
--               of a TCP connection (Tcp: `_handle_conn`).
--   Validation  src/validation: the issues (Issue), the semantic rules (Semantics: each rule and
--               `validate_semantics`) and Events (`validate_event`, the command line's exit code).
--   Normalization  src/normalization: the registry (Registry: `register`, `get`), the mappings
--               (CiscoAsa, LinuxSyslog, FortiGate, Suricata, on Common) and `normalize`
--               (Normalizer).
--   Streaming   src/streaming: the retry policy (Policy), the parser and normalizer stages and the
--               router of retries (Processors), the Kafka worker (Kafka: `process_one`) and the
--               retry worker (RetryWorker: `process_one`, `process_due`, `on_revoke`).
--   Integrations  src/integrations: the delivery result (Delivery), the OpenSearch adapter (Bulk:
--               one answer; OpenSearch: `deliver`), the adapter over a sender (JsonOutput), the
--               delivery worker (Worker: `process`) and the CEF line of an event (Cef:
--               `serialize_cef`).
--   Storage     src/storage: the writes of the ClickHouse store (ClickHouse: `write_batch`,
--               `quarantine_payload`) and the decision of the sink (Sink: `process`).
--   StageWorker files/worker.py: the headers and roles (Message), `_process_one` and the dead letter
--               (Processing), and the producer, `_maybe_commit` and `run` (Loop).
--   Exports     src/exports: the JSON Lines export (`export`) and `verify_manifest`.
--   Pipeline    src/pipeline: the in-memory event store (Visibility: `add_event`, `write_batch`, the
--               lookups, `search`) and the runner of all stages (Runner: `process`,
--               `process_batch`).
--
-- A collector hands bytes to the pipeline, which archives and publishes an envelope; the parser
-- stage reads it, lets the engine choose a pack, and sends a parsed event on, a retry, or a dead
-- letter; the workers commit a record once its output is acknowledged; the retry worker sends a
-- record back to its stage at its deadline.
--
-- Correspondence. State is passed explicitly: an operation takes the state and returns the result
-- with the new state, and a call that raises is `none`, an outcome `failed`, or a constructor of its
-- own. Bytes and walked texts are lists of natural numbers (Prelude/Texts); dictionaries are lists
-- of pairs (Dict), JSON values are Json, Python's `int` and `str` on integers are Decimal. Times
-- are microseconds, delays seconds, deadlines milliseconds. What the world answers (clocks, new ids,
-- failing disks, the broker) is an argument, one record of `Circumstances` for each call; a call
-- that reads the clock more than once reads the same instant each time, except in StageWorker, whose
-- readings of a round are separate. Locks make a call one step.
--
-- Fuel. `drain` in Collection/Tcp takes the length of its buffer as fuel: each round removes a
-- delimiter at least. `journey` in Streaming/Policy/Journey takes any fuel above the attempts that
-- are left. `chunks` in Integrations/OpenSearch takes the number of events: each chunk has one at
-- least. Every other loop recurses on its data.
--
-- Simplified. Instants are natural numbers of microseconds from the epoch without an upper bound:
-- times before 1970, and the `OverflowError` of `astimezone` at the ends of the calendar, cannot
-- occur. `_json_value` is given JSON values only, no datetimes, bytes or other objects. An insert of
-- ClickHouse that raises leaves its table unchanged. The log of rejections fails only by the
-- `OSError` that the pipeline swallows. `int()` on a text knows ASCII digits and white space and has
-- no limit on the digits. The delivery callbacks of files/worker.py come in the order of the
-- produces, and no header value is `None`. A mapping is a record with a version and a function; the
-- test that its `map` is callable is an argument of `register`. Lossy decoding (`errors="replace"`)
-- is a parameter of the ClickHouse store, and the engine and the normalizer are parameters of their
-- stages: they answer, raise a transient error or raise another one.
--
-- Not modelled: `json.loads`, `csv.reader` and `re` of the format parsers (`Libraries`), YAML,
-- `can_parse`, pydantic's JSON (a `Codec`), the JSON schema (a function to issues), the vendors'
-- formats (packs are parameters), sockets, threads and files; what Python knows of Unicode, floats,
-- IP addresses and the calendar (the record of Python.antt, with its laws); the modules of the
-- repository that are listed nowhere above: the syslog text of src/integrations, the Parquet export,
-- the exporter, the dashboard and the aggregations of src/pipeline, source_packs,
-- core/cisco_asa_pack.py, the other scripts of files, and main.py.
mod Prelude
pub mod Int
pub mod Dict
pub mod Json
pub mod Python
pub mod Decimal
pub mod Contracts
pub mod Validation
pub mod Normalization
pub mod Core
pub mod Collection
pub mod Streaming
pub mod Integrations
pub mod StageWorker
pub mod Exports
pub mod Pipeline
pub mod Storage
mod Samples
