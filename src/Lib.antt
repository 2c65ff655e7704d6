-- ===== src/Lib.antt =====
-- moxie is a C++ library for event-driven network servers (base), with a replicated key-value
-- server as its main example (example/Mcached). An event loop waits for descriptors with epoll and
-- calls their handlers. A connection's handler reads from its socket into a buffer, parses requests
-- of the Redis protocol from it, executes them on a Raft cluster (a fork of floyd), whose state
-- machine is a key-value store, and appends the replies to a second buffer, which the loop writes
-- out.
--
-- - Buffer: base/Buffer.h and Buffer.cpp, `Buffer::append` as `append`, and so on. A pointer into
--   the buffer is an offset, a failed assertion is `none`, and sizes wrap at 2^64. Invariant has the
--   well-formedness of the indices, Contents the methods that take bytes, MakeSpace and Compaction
--   the ones that add bytes, ReadFd the read from a socket, whose outcome is an argument.
-- - PollerEvent: base/PollerEvent.h. Bits reads its fields as sets of flags.
-- - Redis: example/Mcached/McachedRequestHandler.h and .cpp. A method of the handler takes the
--   handler and returns it changed. The cluster is a parameter: its state, and what `ExecMcached`
--   does to it and answers. Text models `atoi` and `to_string`; Stream is the specification, a
--   parser of the list of bytes that have come; Line, Totality, Agrees and Items lead to Refine;
--   RoundTrip, Resume, Refused and Reply follow from it.
--   The loop over the arguments runs on fuel, one more than the bytes in the buffer: every round
--   takes at least the two bytes of a CRLF, and Refine needs no hypothesis on the fuel.
-- - Store: example/Mcached/mraft/floyd/third/mcached. The slots are a list of association lists.
--   Commands compares them with one map, Hash has the hash function.
-- - EventLoop: base/EventLoop.h, EventLoop.cpp and Epoll.cpp, `EventLoop::Register` as `register`, and
--   so on. The kernel's epoll is a parameter: a type of states with `epoll_ctl` and `epoll_wait`. The
--   contexts, the map to them and the events are kept by address, so that the use of a deleted
--   context is `none`. Tables has the agreement of the tables with epoll, Calls the three calls,
--   Handlers what a handler may do, Pointers what `Loop` asserts not to be null, Dispatch one batch of
--   events, Waiting `LoopWait`, Running the loop: it runs for a number of rounds, with a bound on the calls of `epoll_wait`
--   in each, and either may be any number. What the handlers do is asked for where the loop calls them.
-- - Listen: base/ListenHadler.cpp with the `AfterAcceptSuccess` of the servers, on the model of the
--   event loop. Retries is about the calls of `accept`, Owned about the descriptor that it gives,
--   Polite about what the handler does to the loop.
-- - Socket: base/Socket.cpp and NetAddress.cpp, on the results of the system calls.
-- - ClientHandler: base/ClientHandler.h and .cpp, the loops of DoRead and DoWrite on lists of what the
--   system calls do. Reading is about DoRead, Delivery about DoWrite, HangUp about a connection that
--   breaks.
-- - Echo: the connections of example/Echo.cpp and example/MultiThreadEcho.cpp, which are a
--   `ClientHandler` with two callbacks. Session follows one through its turns.
-- - Timestamp, Timer, TimerEngine: the files of these names in base. A timer is known by its address,
--   and the engine holds a map from addresses to living timers. The clock at each reading, the
--   outcome of `timerfd_settime` and the effect of a callback are parameters. Keys has the set of
--   keys, Consistency the invariant, Registration and Removal the calls of the loop, Delay and Rearm
--   the timer descriptor, Lost a timer that is reset while it is queued.
-- - Raft: example/Mcached/mraft/floyd/src. RocksDB, protobuf and slash are parameters, and so
--   are the clock, the network and whether a write succeeds. Log is raft_log.cc, and its
--   Contents reads the keys as a list of entries; Node the state that floyd_context.cc and
--   raft_meta.cc keep. Vote has `ReplyRequestVote` and `RequestVoteRPC`, Append
--   `ReplyAppendEntries`, with the list function that it follows in Expected, and Peer
--   `AppendEntriesRPC`, where Quorum and Progress are about the commit index; Collected, Rounds
--   and CatchUp are about a leader that exchanges messages with one follower, for at most as
--   many rounds as the index that is sent next; a refusal that adds no task ends the exchange.
--   Events has what can happen to a running node, from every thread, as a step relation. Primary is the primary thread, Server the whole of a server, Apply
--   floyd_apply.cc, Start `FloydImpl::Init`. Command builds requests and entries, Execute runs
--   them, its ReadBack follows a set through the log to the store, Client has the calls of a
--   client, and Worker the dispatch of messages. Stored has
--   raft_meta.cc and the keys of raft_log.cc as bytes of one database: Bytes reads numbers back,
--   Meta and Init are about the values of Node, Opening about the constructor of RaftLog. Options
--   is floyd_options.cc, where `split` takes as fuel one more than the length of its text, and
--   Split reads the list of members. The loops run
--   over lists or on fuel that is the number of indices left. `none` is a loop that does not
--   end, an assertion that fails or a read behind the end of a list.
-- - Base: the shared names, arithmetic of `size_t`, the standard algorithms on memory, bits.
-- - Tests: the theorems at concrete inputs.
--
-- Not modelled: that the logs of a whole cluster agree; the pool of connections between the
-- servers and its log output; the functions main; the texts of times, options and the server status;
-- threads and locks, so calls of the store are taken one at a time; copies of other projects.
pub mod Base
pub mod Buffer
pub mod ClientHandler
pub mod Echo
pub mod EventLoop
pub mod Listen
pub mod PollerEvent
pub mod Raft
pub mod Redis
pub mod Socket
pub mod Store
pub mod Tests
pub mod Timer
pub mod TimerEngine
pub mod Timestamp
