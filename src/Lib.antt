-- ===== src/Lib.antt =====
-- The WebSocket gateway: datagrams and WebSocket messages in a binary protocol are relayed between
-- the users of rooms.
--
-- Parts of the program, and the files that model them:
-- * doc/gateway-protocol/src/lib.rs, the wire format. Protocol/PacketType and Protocol/TargetType
--   are the two enums with their codes; Protocol/Fields is `pack_ascii_field`,
--   `is_valid_ascii_field` and `ascii_field_str`, with the UTF-8 test that the last one calls;
--   Protocol/Header is `PacketHeader` with `new`, `encode_header`, `encode` and `decode`, and the
--   two error types, whose texts are in Protocol/Header/Display. Bytes and strings are lists of
--   numbers, and `IsTyped` is what the Rust types of the fields enforce.
-- * src/routing.rs, the bounded channel. Channel has `ChannelInner`, `bounded`, `try_send`,
--   `send_drop_oldest`, `send_timeout` and `recv`. A sender and a receiver are handles of one
--   shared state; a method that holds the lock is one step on it. tokio's `Notify` is the
--   parameter `Notify`, with its documented behaviour as laws.
-- * src/routing.rs, `Router`. DashMap has the maps, as association lists; Router has `register`,
--   `unregister_internal` in the two blocks between which its lock is free, `route`, `dispatch`
--   and the retry task. A sender is the number of its channel in a store, so that channels are
--   shared between the registry, the retry tasks and the receivers. The order in which a room is
--   gone through is the parameter `Iteration`. Router/Population and Router/Sizes are about the
--   counts of rooms and users, and Router/Log has the lines that the router logs.
-- * src/network.rs. Network has the counters, the UDP loop, the handshake `ws_handler` and the task
--   `handle_ws_connection`: its set-up, one turn of its `select!` loop for each event, and its
--   cleanup. What is read from sockets and what other tasks do to the shared state are events, and
--   Booleans say which writes succeed.
-- * src/observability.rs. Observability has the labels of the metrics and the counters under them,
--   with the counters of the `metrics` crate as the parameter `Recorder`, and the log line of
--   src/network.rs for a packet that does not decode. Observability/Setup has `init_logging`,
--   `init_metrics` and the helpers that record metrics, by the calls that they make of other crates,
--   with floating-point numbers as a parameter; Observability/Drain has the shutdown helpers, by what
--   they log, with the timeout printed as Decimal prints numbers; Observability/Logging has the
--   helpers that log one line.
-- * src/main.rs. Process/Cli has the options with their defaults, and Process the tasks that `main`
--   spawns and aborts, from the launch to its return, with `run_udp` and `run_ws` of src/network.rs
--   as two of them, around the steps of System.
-- * The tasks together. State has the state that all tasks of src/network.rs and src/routing.rs
--   share, with what the atomic blocks of each task do to it, and System has `Step`, one such block
--   of one task: a datagram, a connection that is opened, counted, read from, served, taken off the
--   gauge, unregistered and closed, a clean-up, the two blocks of a routing task, and an attempt or
--   the end of a retry. System/Steps has what every step keeps, System/Safety and System/Gauge what
--   follows in every order of the blocks, System/Routes the blocks of a routing task one after
--   another, System/Passage the way of a datagram and of a message to a client, System/Registry the
--   registry as Router/Cleanup has it, System/Senders who holds the senders of connections,
--   System/Listed and System/Population how many the registry lists, System/Loads and System/Once
--   how many copies of a packet the tasks make, System/Kick a second connection under the names of a
--   first one, System/Rest how the tasks come to rest, and System/Clock the runs in which the clock
--   that the blocks read never goes back.
-- * examples/stress.rs, the load generator. Stress has the packets that it builds and the panic
--   where a name does not fit, Stress/Bench what it reads from its clients and the memory for its
--   latencies, with the allocator as a parameter, and Stress/Report the percentiles, with the
--   products of floating-point numbers that index them as the parameter `Scaling`.
--
-- How they interact: a datagram or message is decoded by Protocol, then a task is spawned that calls
-- `route` of Router, which sends the encoded packet to channels of Channel; the task of each
-- connection receives from its channel and writes to its socket. Common has the tests on numbers,
-- lists and results that the parts share, Fixtures the concrete values of the Tests modules.
--
-- Bounds and fuel: the loop of `recv` is given two turns, and two are enough, since at most one
-- permit is stored; `send_timeout` is given eleven attempts for its 50 ms, enough with sleeps of at
-- least 5 ms; the digits of a number are given one more than the number, which each digit divides by
-- ten; the loops over datagrams, events and rounds recur on what happens. Counters wrap at 2^64.
-- Times are milliseconds: pings every 10 seconds, a timeout after 30. A channel holds 64 packets.
--
-- Not modelled: sockets and the HTTP server, the parsing of the command line, the log lines of
-- src/main.rs and of the connections, the rendering of the metrics, the installation of signal
-- handlers, the empty src/static_files.rs, the failures of sockets, the clock, the average and the
-- printed table of examples/stress.rs, the tests, and the clients in Python and JavaScript. These are
-- I/O, glue, floating-point arithmetic or other programs.
pub mod Common
pub mod Protocol
pub mod Channel
pub mod DashMap
pub mod Router
pub mod Network
pub mod State
pub mod System
pub mod Process
pub mod Decimal
pub mod Stress
pub mod Observability
pub mod Fixtures
