-- ===== src/Lib.antt =====
-- Diddycord, a light Discord client: models of its program parts and the theorems that make them
-- correct.
--
-- The gateway task (src/gateway/mod.rs) holds one websocket connection at a time. It turns the
-- server's dispatches into `FrontendEvent`s and broadcasts them. The frontend drains them, within a
-- budget for each frame, into `FrontendState` (src/state.rs), which keeps the timelines of some
-- channels and, in `TopologyState` (src/topology.rs), the guilds with their channels and threads;
-- and into `DirectTopologyState` (src/gateway/direct.rs), which keeps the direct channels. Commands
-- go to the REST dispatcher (src/rest.rs) through a bounded queue; its `RestEvent`s are drained
-- into the same state, and the history pager (src/history.rs) observes them for the page it waits
-- for. The graphical client (src/gui_app.rs) owns the state, the handle of the dispatcher and the
-- control of the network, and drains, shows and reacts in each frame.
--
-- Base holds what the others share: Boolean tests, lists, searches, keyed vectors, the oldest
-- entry, texts as bytes, decimal numbers, trimming, stable sorting, saturating counters and
-- `Result`. Events has the records and enums that the parts exchange, and Snowflake the test for
-- ids.
--
-- Topology models src/topology.rs: Topology/Cache the state and the reads, Topology/Guilds and
-- Topology/Ops the handlers (`apply_guild_snapshot`, `apply_channel_change`,
-- `apply_thread_list_sync` and so on, under their Rust names); the other files prove what the
-- handlers keep and do.
--
-- State models src/state.rs: State/Cache the state and the reads, State/Retire the tombstones,
-- State/Timeline the operations on one timeline, State/Ops `apply`, `apply_rest` and
-- `apply_history`, State/Drain the drains. The `HashMap` of timelines is an association list.
--
-- Direct models src/gateway/direct.rs: Direct/Cache the state, Direct/Payloads the events that
-- parsed payloads become, with `emit_direct_message_discovery` of src/gateway/connection.rs.
-- Direct/View and Direct/Refinement compare the cache with a map from ids to channels that has no
-- bound, stamps or order.
--
-- Rest models src/rest.rs: Rest/Commands the validation and the requests, Rest/Handle the handle,
-- Rest/Build the construction with the texts of the errors, Rest/Headers the delays that headers
-- ask for, Rest/Responses how a response is received and its body read and parsed, Rest/Dispatcher
-- the retry loop with a clock in milliseconds; Rest/Waits compares its waits with what an answer asks
-- for, and Rest/Whole has whole numbers in place of floating point for concrete runs. Rest/Reader reads a request back as a server would. Retries are a
-- structural recursion on the retries left, from MAX_RATE_LIMIT_RETRIES. `next_request_id` runs on
-- fuel for two rounds, which are enough since the counter is zero at most once in a row.
--
-- History models src/history.rs: History/Pager the methods, History/Protocol the states they reach,
-- History/UnderWay and History/Loads a load from its submission to its answer, History/Stall what
-- becomes of paging back at a full timeline.
--
-- Gateway models src/gateway/recovery.rs (Gateway/Recovery), src/gateway/protocol.rs
-- (Gateway/Protocol), the opening of a connection (Gateway/Greeting, Gateway/Opening), the frame
-- loop of `run_connection` in src/gateway/connection.rs (Gateway/Connection, a step for each frame;
-- Gateway/Routing, the emit functions by the name of a dispatch) and the reconnection loop of
-- `NetworkBackbone::run` in src/gateway/mod.rs (Gateway/Backbone, a round for each connection), and
-- `NetworkControl` with its watch channels (Gateway/Control). Gateway/Payloads has the payloads of
-- src/gateway/events.rs, src/gateway/bulk.rs and src/gateway/identity.rs, Gateway/Emits the emit
-- functions; Gateway/Snapshots and Gateway/Bulk follow the dispatch of a guild and a bulk deletion
-- into the caches.
--
-- Gui models src/gui_app.rs: Gui/Session the session and its methods, Gui/Rows what the panels
-- list, Gui/Lists and Gui/Panels the panels, each a function from the session and the user's
-- actions to the session and the widgets shown, Gui/App the login screen, the frames and the end,
-- Gui/Protocol the applications that can be reached, Gui/Kept what a frame leaves alone, Gui/Journey a message from the composer
-- through the dispatcher into the timeline, Gui/Delivery a direct message from the gateway into the
-- caches. Start models src/runtime.rs and what src/bin/diddycord-headless.rs reads from the
-- environment.
--
-- What comes from outside is an argument: what `try_recv` and `try_send` of tokio answer, what
-- serde_json reads from a payload, the HTTP transport's responses with the time that each takes,
-- the frames of the websocket with their times, whether a write to it succeeds, the entropy of the clock, what is clicked and typed, and how
-- the worker thread ends. The numbers of 64-bit floating point are an interface (`Float`), with the
-- laws of IEEE 754 that the bounds of the delays rest on. A method on `&mut self` returns the new
-- state. Counters are the `u64` and `u32` of the source, with their saturation or wrap-around
-- written out; lengths are `usize`, which no vector exceeds.
--
-- Not modelled: the layout of egui (sizes, spaces, separators, hover texts, repaint timers) and the
-- start of the window; src/main.rs and src/lib.rs, which are start-up and exports; the websocket,
-- TLS and HTTP libraries; the serde derive code and the text of JSON.
pub mod Base
pub mod Events
pub mod Topology
pub mod State
pub mod Snowflake
pub mod Direct
pub mod Rest
pub mod History
pub mod Gui
pub mod Start
pub mod Gateway
