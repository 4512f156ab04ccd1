-- ===== src/Lib.antt =====
-- cpp-kv-store: an in-memory key-value server that speaks a part of RESP2.
--
-- A request comes from a connection's input buffer through the parser (Protocol) to the dispatcher
-- (Command), which runs it on the sharded store (Storage) and encodes the reply with the serializer
-- (Protocol.Serializer). Requests and replies pass between the event loop and the worker threads
-- through bounded queues (Worker), and each connection has bounded buffers and puts its replies back
-- into the order of its requests (Net). A sweeper thread removes expired keys.
--
-- Files, with the paths of the code in the repository:
--   Base: helpers. Tests (Boolean tests), Lists, Totals (sums), ByteStrings, Assoc (std::unordered_map
--     as an association list), Int (signed integers), Mask (masks of low ones).
--   Protocol/Command: include/kvstore/protocol/command.hpp and the types of parser.hpp.
--   Protocol/Integer: parse_nonnegative_integer of src/protocol/parser.cpp; std::to_string.
--   Protocol/Line: read_line. Protocol/Frame: read_multibulk_frame; each round of its loop is
--     read_bulk. Frame/Encode: encode_command of benchmarks/client/kv_bench.cpp.
--   Protocol/Build: build_command, one definition for each branch; Build/Requests: the requests of the
--     seven commands. Protocol/Parser: parse_command.
--   Protocol/Serializer: src/protocol/serializer.cpp.
--   Storage/Time: the arithmetic on std::chrono time points. Storage/Heap: ExpirationCandidate and
--     the priority queue. Storage/Shard: src/storage/shard.hpp and what src/storage/store.cpp does to
--     one shard under its lock; read_live is split into the section under the shared lock and the one
--     under the exclusive lock. Storage/Store: the shards, the mask that chooses one, and the
--     operations. Storage/Store/Sweep: Store::sweep_expired. Storage/TtlSweeper: the passes of
--     src/storage/ttl_sweeper.cpp. Storage/View: what a client can see.
--   Command: src/command/dispatcher.cpp. Command/Abstract: the commands on a plain map from keys to
--     bindings. Command/History: the critical sections of all threads, in the order of the locks.
--   Net/BoundedBuffer: src/net/bounded_buffer.cpp. Net/ResponseSequencer: the reordering of replies,
--     src/net/response_sequencer.cpp. Net/ConnectionRegistry: src/net/connection_registry.cpp.
--   Net/Io: src/net/io.cpp over what ::recv and ::send return.
--   Net/EventLoop: process_input and push_responses of src/net/event_loop.cpp. EventLoop/Steps: run
--     and the handlers of that file, each round of a loop as a step from one place to the next.
--     EventLoop/Construct: its constructor.
--   Net/FileDescriptor: src/net/file_descriptor.cpp, with FileDescriptor/Owners for what the objects
--     own. Net/Listener: src/net/listener.cpp.
--   Net/Wakeup: its eventfd, a counter that wake adds to and drain_wakeup resets.
--   Worker/BoundedQueue: include/kvstore/worker/bounded_queue.hpp; BoundedQueue/Waiting: its condition
--     variables, for any number of threads. Worker/Items: work_item.hpp of the same directory.
--     Worker/Pool: src/worker/worker_pool.cpp, its threads as steps in any order.
--   Server: what src/main.cpp puts together, with the steps of the event loop, the worker threads and
--     the sweeper in any order. Server/Start: main from its arguments to the running server,
--     and the destructor of the pool at its end (Start/Shutdown).
--     Server/Sound: where each request is. Server/Attended: what is parsed and asked of epoll.
--     Server/Awake: when the event loop is told of a completion.
--   Cli/Options: src/cli/options.cpp, and Logger::parse_level of src/util/logger.cpp.
--   Logger: Logger::log of src/util/logger.cpp.
--   Bench: send_and_receive of benchmarks/client/kv_bench.cpp, the client's side of the replies.
--   Tests: runs on concrete inputs, and each theorem at an input that meets its conditions.
--
-- Numbers: bytes are codes, byte strings are lists of them. Time points are nanosecond counts moved
-- by 2 ^ 63, so that they are natural numbers in the same order; sums wrap around at 64 bits, as the
-- signed counts do on the machines the server runs on. Generations and counters wrap at 64 bits.
-- Sizes of byte strings are not bounded by 2 ^ 64.
--
-- Fuel: `decimal` has one round more than the number, which falls each round; `bit_ceil_from` has 64
-- rounds, one for each power of two that std::size_t holds; `sweep_heap` has max_items_per_shard
-- rounds, which is the bound of the source's own loop; `read_bulks` has the declared number of
-- elements; `release` has one round for each pending response, of which each round erases one.
-- `process_input` needs one round for each frame in the input and one more. The other loops are
-- structural.
--
-- Parameters: std::hash is any function from keys to numbers; the clock is the time that each
-- operation is given; what the system calls for sockets, epoll and the eventfd answer are arguments
-- of the constructors and of the steps; a wakeup may be reported at any time. Whether the shards can
-- be allocated and the worker threads started is an argument of main; other allocations do not fail.
-- std::priority_queue leaves the order of equal deadlines open; the model takes first the one pushed
-- first. std::bit_ceil is undefined above 2 ^ 63, where main ends in an outcome of its own.
--
-- Not modelled: locks (a critical section is one step, and an operation that waits has the value
-- none), signals, where the program logs, and the rest of the benchmark client: they are system calls
-- and wiring, or threads whose effects are the steps above.
pub mod Base
pub mod Protocol
pub mod Storage
pub mod Command
pub mod Net
pub mod Worker
pub mod Server
pub mod Cli
pub mod Logger
pub mod Bench
pub mod Tests
