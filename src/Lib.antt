-- ===== src/Lib.antt =====
-- Verification of the core of the actor library thespian: the CBOR codec, the actors, the hub,
-- the timers and sockets, the endpoints, the traces and the debug registry.
--
-- The program. Actors exchange messages that are CBOR arrays in byte buffers. A sender builds a
-- buffer with `array(parms...)` (include/cbor/cbor.hpp, src/cbor.cpp), a receiver matches it with
-- `m(parms...)`. An actor (`struct instance` of src/instance.cpp) has a strand on which its tasks run
-- one after the other; it stops on an exit message, tells the actors that are linked, and is
-- destroyed when nothing refers to it. The hub (src/hub.cpp) is an actor that sends what it is given
-- to its subscribers. An endpoint is an actor that carries messages over a socket.
--
-- The files.
--   Prelude, Prelude/*: library names, Boolean tests, lists, bits, `int64_t` and text.
--   Cbor/Result: what a decoder gives: a value and the place behind it, an error that the code
--     throws, or the end of the fuel.
--   Cbor/Buffer: the pushes of `buffer`. Cbor/Decode: heads and strings. Cbor/Skip: `skip_value` and
--     `match_type`. Cbor/Scalar: `match_int` and the like. Cbor/Match: `match_value`, `match_next`,
--     the extractors, A, M, and `operator()`.
--   Cbor/Json: the scanner of `push_json`, and the two paths for strings, that
--     Cbor/Json/Paths compares. Cbor/Json/Number, Parse: the
--     rest of `push_json`. Cbor/Json/Print: `to_json`. Cbor/Json/Printed, Decimals, ReadNumber,
--     ReadString, ReadParts, RoundTrip: from a value to its text and back. Cbor/Json/Scans, Total,
--     PrintTotal: any text and any bytes.
--   Cbor/Value: the values that the pushes can write. Cbor/Accepts: what a match promises on them.
--   Cbor/Head, SkipValue, PushSkip, ScalarFinds, MatchFinds, Headers, Refinement: what is decoded from
--     pushed bytes. Cbor/Total, TotalMatch: any bytes. Cbor/Extend: bytes with others behind them.
--     Cbor/Dispatch: a receiver's chain of `if (m(...))`.
--   Actor/Messages: the messages of the runtime. Actor/State: instances and the system.
--   Actor/Send: `queue`, `send_raw`, `spawn`, `link`. Actor/Run: `run`, `handle_exit` and the
--     destructor; `step` runs the oldest task of an actor.
--   Actor/Later, ExecLater: what the calls of an activation keep. Actor/Handlers, Exit, Deliver: exits.
--     Actor/Counted, StepCounted, Reach: whole steps and what can be reached by them. Actor/Ends: the
--     end of an actor. Actor/DeadLetter: sends to an actor that is gone. Actor/Sync: `dispatch_sync_raw`,
--     by which a callback hands a message to its actor.
--   Hub/Range: the loop over a range. Hub/Receive: `hub_impl`. Hub/Broadcast, Listen: its branches.
--     Hub/Subscribe: its handles, that share a queue of filters with it.
--   Device/Report: the reports of errors. Device/Timer, Metronome, Socket, Descriptor, Tcp: the objects
--     that an actor owns, by what their callbacks send and do. Device/Pending: what a socket holds.
--     Device/Unx, UnxFiles: the acceptor and the connector of unix sockets, and the socket file.
--   Endpoint/Connection, Connector, Acceptor: the receivers of `namespace endpoint`.
--     Endpoint/Frames, Framing, Chunks: messages in a stream of bytes. Endpoint/Retry: failed attempts.
--     Endpoint/Forward: the messages that a connection writes. Endpoint/Wire: from one endpoint over its socket and the wire to another one.
--   Trace/Channels: the mask of channels (include/thespian/env.hpp). Trace/File: the lock-free list
--     of `trace_file` (src/trace.cpp), with any number of threads. Trace/Writers: what the three kinds of
--     files print, and the messages that an instance traces (src/instance.cpp). Trace/Mermaid, JsonLines:
--     what comes of these.
--   Debug/Registry, Names: the names of instances. Debug/Taps, TapCount: the taps. Debug/Lines, Commands,
--     Unwritten: the lines that the debug connection reads, what kind of command each is, and what is
--     not written yet. Debug/Fields: the fields of a JSON command. Debug/Session: the state of a
--     connection and its text commands. Debug/Json: its JSON commands. Debug/Reports, Receive: the rest of
--     `connection::receive`. Debug/CallProxy, CallReports: one call. Debug/Acceptor: what starts connections.
--     Debug/Dialogue: all messages to a connection, in any order. Debug/Answers, TextAnswers,
--     JsonAnswers, Handlers, Shown, CallLists, Balance: which commands are answered.
--   Executor/Threads: threads and their stacks. Executor/Async: what is started on asio, what asio has to
--     complete, and the callbacks (src/executor_asio.cpp). Executor/Counts, Guard, OneWait, Silent: its
--     counters, its guards against a second wait, and its tokens, in every run.
--   Tests under each part: runs at concrete inputs.
--
-- The model. A byte is a number below 256 and an iterator is the list of the bytes from it on. A
-- word of 64 bits keeps its wrap-around written out. A float is its bits. `skip_value` recurs on
-- fuel, a unit for each level of nesting; as each level takes a byte, the number of bytes is enough.
-- What an actor does in an activation is a tree of calls of the runtime (`Code`); a task runs to its
-- end before another starts, and which actor goes next is left open. An object is alive when the map
-- of instances has it; a `ref` is its id. It lives as long as its own `lifetime_`, a task or a callback that
-- is pending holds it. An exit handler returns or throws; what else it does is not followed.
-- The place in a JSON text that the exception of `push_json` names is left out; Cbor/Json/Paths has it for
-- strings.
-- The loop of an endpoint over its buffer recurs on the length of the buffer, as each round takes a
-- byte at least.
-- `push_json` and `to_json` nest by fuel as `skip_value` does, with a unit for each character or byte.
-- The executor is a step relation: asio completes the operations that it has in any order, each with
-- any result. What the standard library makes of a double, its text and back, is a parameter.
--
-- Not modelled: `receive_sync`, the values of the environment, the spawns of
-- endpoints, asio itself and the conversions of addresses for it, the C interface and the Zig module.
pub mod Prelude
pub mod Cbor
pub mod Actor
pub mod Hub
pub mod Device
pub mod Endpoint
pub mod Trace
pub mod Debug
pub mod Executor
