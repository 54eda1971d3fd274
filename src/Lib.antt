-- ===== src/Lib.antt =====
-- A model of the Rust client of lobbylink (clients/rust/src): peer-to-peer games over WebRTC data
-- channels, with a lobby server for signaling.
--
-- The parts. A game connects to the lobby over a WebSocket and gets a slot in a room of
-- `max_players` slots. The actor owns the roster and one link for each other player; it reads lobby
-- messages, callbacks of the webrtc crate and API commands one at a time. A sender task for each
-- player cuts reliable messages into frames; the actor of the receiver puts them together again.
--
-- Which file models what (paths are under clients/rust/src where nothing else is said):
--   Framing      core/framing.rs: make_frame, chunk_count, parse_frame.
--   Reassembly   core/reassembly.rs: Reassembler::push, as steps on an association list.
--   Error        core/error.rs and core/limits.rs.
--   Roster       core/roster.rs: roster_from_snapshot, check_target.
--   Options      core/options.rs: CreateOptions, validate_code.
--   Url          core/url.rs: signaling_url, default_origin, on bytes.
--   Events       core/events.rs.
--   Protocol     core/protocol.rs: the messages (Protocol), JSON values (Values), and what the serde
--                derives write (Wire) and read (Reading), from objects and from arrays.
--   Native.Link     native/link.rs: send_one and its waits; sender_task (Queue).
--   Native.Receive  native/actor.rs, the handling of a received frame.
--   Native.Actor    native/actor.rs: the state (Actor), links (Peers), offers, answers and candidates
--                   (Signals), lobby messages (Lobby), callbacks and commands (Messages), `run` and
--                   `shutdown` (Loop).
--   Native.Game     native/mod.rs: the API type and its sends (Game), `connect` and the reader task
--                   (Connect), the token file (Storage).
--   Wasm            wasm/inner.rs and wasm/link.rs, the same client on a browser: the state (Wasm), links
--                   (Links), offers, answers and candidates (Signals), lobby messages and `shutdown`
--                   (Lobby), the handlers of connections and channels (Callbacks), statistics (Stats),
--                   `send_one` and its waits (Sends), the queue and its worker (Worker).
--   Wasm.Game       wasm/mod.rs: the API type, its sends and `connect` (Game), the token store (Storage).
--   Wasm.Steps      what can happen next, in any order: a handler, a call, or a task that goes on.
--   Room            what both backends promise of the room: the slots and the events that the lobby's
--                   messages mean. The native actor (Actor) and the browser backend (Browser) keep to
--                   it, and so agree (Same).
--   Asteroids       examples/asteroids-native/src/protocol.rs: encode_state, encode_hit, encode_clock,
--                   decode, seq_newer; a float is the number of its bits.
--   Base         lists, maps, texts, UTF-8, big-endian words and the outcome of fallible code.
--
-- How the code is read. A handler is a function from the actor to the actor. What it does outside
-- (events, messages to the lobby, calls on connections, timers, spawned tasks) is appended to `log`,
-- newest first. What the webrtc crate, serde_json on candidates and the clock answer within one
-- handler is a record `Rtc`, over which every theorem is quantified; the theorems rely on nothing of
-- it. Connections are named by the epoch of their link, and a link's closed flag, which is
-- shared with the sender task, is the set `closed_links`. A panic is a value of `Outcome`, so a
-- theorem that says a result is `ok` says that no index, slice or `expect` which the model has
-- panics. Two kinds of panic are not modelled: that of a poisoned mutex (the actor and the API
-- lock the shared roster only to copy it or to look up a slot), and that of a `RefCell` of the
-- browser backend which is borrowed twice; no theorem speaks of these. The sender task runs on a
-- list of what it sees at each look (timeouts, closed flags, buffered amounts, results of
-- sends); where the list ends it is still waiting.
--
-- The browser backend (Wasm) keeps one shared state, `Inner`, which handlers and tasks change between
-- two awaits. A task that awaits is a value of `Task` that names the await and holds the task's
-- variables; `resume` runs it up to the next one. A oneshot is a number in the lists of waiters, and
-- what was sent on it is in `mail`. Links are found by their epoch, also after they are closed, which
-- stands for the `Rc<Link>` that tasks hold. What the browser answers within one segment is a record
-- `Web`, over which every theorem is quantified. The jobs of a queue that is torn down get their
-- answer at once; in the code a queue whose worker awaits lives until that await is over, and then
-- its callers get the same answer.
--
-- Numbers. u16 and u32 fields that come from the wire are bounded where they are read, and
-- `next_msg_id` wraps at 2 ^ 32. The epoch counter (u64) and the failure counts (u32) are numbers
-- without a bound: a session would need 2 ^ 64 links or 2 ^ 32 failures to reach it. `usize` has 64
-- bits, which no length here reaches. Times are whole milliseconds.
--
-- Loops. All are recursion on a list or on a number of rounds that the code itself computes; the
-- fuels are in the printing of a decimal, where a number has at most its own value plus one digits,
-- and in the browser's worker, which has one round more than its queue has jobs: each round takes a
-- job off, and nothing is queued meanwhile.
--
-- Not modelled: log lines, the text of JSON, the bodies of webrtc, tokio, tungstenite and
-- serde_json, the accessors of P2PGame and its event stream, the example games (their
-- floating-point arithmetic and drawing), the other clients and the server.
pub mod Base
pub mod Framing
pub mod Reassembly
pub mod Error
pub mod Native
pub mod Roster
pub mod Options
pub mod Url
pub mod Events
pub mod Protocol
pub mod Wasm
pub mod Room
pub mod Asteroids
