-- ===== src/Lib.antt =====
-- Verification of parts of ember, the backend and client library of the repository (ember/).
--
-- The editor of ember talks to a Code-OSS server. The crate ember/editor-conn frames the byte
-- stream (frame.rs), numbers, acknowledges and replays the frames so that no message is lost when
-- a socket breaks (protocol.rs), and encodes the values of the IPC calls that the messages carry
-- (ipc.rs). The crate ember/editor moves the decorations of a document through its edits
-- (coords.rs). The crate ember/client reduces the stored events of a session to the conversation
-- that is shown (transcript.rs), and keeps the sessions, projects and teams around it (state.rs).
-- The crate ember/transport decides which peers may connect, and cuts a revoked peer off (gate.rs).
-- The crate ember/server derives the status of a session from its events (events.rs) and fires the
-- schedules of prompts (schedules/timing.rs and mod.rs). The crate ember/editor-conn also keeps a
-- copy of each document in step with the extension host's (document.rs). The crate ember/node
-- runs background jobs and logs their events for the server (jobs.rs).
--
-- Files:
--   Base: the native numbers, lists measured by them, Boolean tests, finite maps and sets.
--   EditorConn: the errors and results of the crate (ember/editor-conn/src/lib.rs).
--   EditorConn/Documents: `DocumentMirror` with its methods under their names; `apply` is `check`,
--     which changes nothing, then `apply_each` and `finish`. Children: Places (positions in a line),
--     Applied and Order (edits made from the end leave the earlier ones in place), Atomic, Joined, Text,
--     Bridge (`DocumentBridge`, with `open` as `open_document`, and the calls that it sends) and
--     Follows (what one who hears the calls knows).
--   EditorConn/Frame: `Frame::encode_into` is `encode_into`, `FrameDecoder::push` and `next_frame`
--     are `push` and `next_frame`; the reader loops of ember/editor-conn/src/connection.rs are
--     `drain` (whole frames) and `feed` (chunks). Children: RoundTrip, Stream.
--   EditorConn/Protocol: a field of `PersistentProtocol` is a field of the record of that name, and
--     each method a function from the state to a `Reaction`, which holds the state, the inbound
--     value and the frames written. `receive` is in three parts (`take_ack`, `handle`,
--     `receive_regular`), and `keep_alive` is `send_keep_alive`. Children: Queue (the frames not
--     yet acknowledged), Ends, Sends and Hears (what each operation keeps), Acks, and Link, which
--     runs two ends against each other over sockets that break (Delivery, CatchUp).
--   EditorConn/Ipc: `IpcValue`, `write_vql`, `read_vql`, `serialize`, `deserialize`, and the two
--     functions on messages. Children: Cursor (positions in a buffer), Vql, RoundTrip.
--   Editor/Coords: `WidgetRange::new` is `ordered`; the methods of ranges start with `range_`.
--     Children: Columns, Ranges.
--   Client/Wire and Client/Transcript: `Transcript::apply_seq` and `reduce`, with the match of the
--     latter in `reduce_event`. Children: Reduce, Replay, Indexes, Cards,
--     Streaming and Settled (which items are flagged as streaming, and what a turn's end leaves).
--   Client/State: `State::apply` is `apply`, its match `dispatch` with one function for each longer
--     arm; each takes the state and the changes noted so far. Children: Data (the types), Grows and Seen (what
--     never falls back), Same, Feeds and CatchUp (how events reach a transcript).
--   Node/Jobs: `Jobs` as a record with its map and its log; `start` is the call up to the reader
--     task, whose turn is `read_event` and whose whole loop is `read_all`. Children: Log, Runs (any
--     sequence of calls and turns), Output, Tails, Remove, Cut.
--   Server/Schedules: timing.rs under its names, with the loop of `occurrences_between` in `walk`.
--     Children: Next, Walk, Rows (the row of a schedule in mod.rs: `create`, `update`, `pause`,
--     `resume`, `plan`), Plans, Rests.
--   Server/Events: `SessionStatus::after` is `after`. Child: Status.
--   Transport/Gate: `PeerGate` with the two structs behind it as `GateState`; the task that waits
--     for the end of a connection is `closed`. Children: Admission (any sequence of calls),
--     Revocation.
--   Each Tests file runs the definitions on concrete input and applies the theorems to it.
--
-- Bounds and fuel: a `u32` is a number below 2 ^ 32, whose sums are taken modulo that; theorems on
-- columns and offsets have a bound on the text instead, and the runs of Link are shorter than that.
-- `drain` has one round more than there are bytes, `release_held` one more than there are held
-- events, and `deserialize` one more than there are bytes: each round uses up one of these.
-- `walk` has as many rounds as `MAX_WALK`, and `next_boundary` as the text has bytes; running out of
-- the first is an error that does not occur. An instant of the schedules, an `i64`, is kept as the
-- number that is 2 ^ 63 larger.
-- `read_vql` ends in its sixth round, and `write_vql` writes at most five groups of seven bits.
--
-- Parameters: JSON values and the texts of JSON and UTF-8 (serde_json and the standard library),
-- the equalities that the client's types derive, the type of peers, and the connections of the
-- transport, the calendar with its time zones and cron expressions (chrono, chrono-tz, croner: a
-- match is later than the instant it is looked for from), lossy decoding, and the start of a
-- process. Clocks are arguments in milliseconds.
--
-- Not modelled: sockets, tasks, locks and logs. An operation that runs under one lock is one step;
-- those of schedules, whose statements take the lock one by one, decide on the row as they read it
-- and write to the row that is there later. Not modelled either: the IPC client with its pending
-- calls, the cache of the client, the runs and prompts of schedules, the rest of the server and of
-- the node, the hub, the application and the proxy.
pub mod Base
pub mod Client
pub mod Editor
pub mod EditorConn
pub mod Node
pub mod Server
pub mod Transport
