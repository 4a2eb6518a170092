-- ===== src/Lib.antt =====
-- Raft consensus: the protocol core, its node and server, the storage, the key-value store, the client
-- API, and the linearizability checker of the chaos tests.
--
-- The program. A `RaftCore` (src/core/raft_core.rs) is one node's protocol state. It writes its term,
-- its vote and its log through a `Storage` (src/storage/traits.rs), applies committed commands to a
-- state machine (src/state_machine/traits.rs) and cuts its log with snapshots. A `RaftNode`
-- (src/core/raft_node.rs) builds the requests to the peers under a lock, sends them, and takes the
-- replies as they arrive. A `RaftServer` (src/core/raft_server.rs) answers submissions and read
-- requests, which the HTTP handlers (src/api/client_http.rs) send it for their clients. The server's
-- storage is `FileStorage` (src/storage/file.rs). The chaos tests record what clients see as a
-- history (chaos-test/src/history.rs) and check that it is linearizable (chaos-test/src/checker.rs).
--
-- The files.
--   Prelude and its children: shared names; lists, membership, maps, results and Boolean tests on the
--     native numbers; 64-bit addition and subtraction, which wrap as in a release build.
--   Types: the messages, log entries and snapshots of src/core/raft_core.rs and
--     src/core/snapshot.rs.
--   Storage: the trait as a record of operations, an instance argument of everything that stores.
--     Storage/Memory is src/storage/memory.rs. Storage/VoteLaws and Storage/Reliable are what the
--     theorems ask of a storage; `MemoryStorage` has both. Storage/Text is what src/storage/file.rs
--     uses of the standard library on text, and its `crc32`; a text is the list of its scalar
--     values. Storage/Checked is a file with a checksum, and Storage/File the four files, with the
--     outcomes of the writes to come as a list. TextLaws and TrimLaws are on the text functions;
--     File/Read, File/Prefix, File/Torn, File/LogFile, File/LogLaws and File/SnapshotFile are on the
--     files.
--   Machine: the state machine's two traits as one record, likewise. Machine/Kv is
--     src/state_machine/kv.rs over the dictionary of Machine/Dict; serde_json is the parameter
--     `Json`.
--   Core: src/core/raft_core.rs. State, Persist, Query, Apply, Append, Install, Election and Leader
--     hold the record and one function for each method, under the method's name. A part of a long
--     method that stands for itself is a function beside it (`check_prev`, `accept`, `try_commit`).
--     Step is what one node can do, restarts included. The other children are what the methods
--     keep: Frame, VoteSafety, VoteSteps, FollowerSteps, OneVote, Calm and Candidacy on votes; Log,
--     LogOk, Applying, Merge, Accepting, Replication, Answering, Conflict, Installing and Hints on
--     the follower's log; Compaction on the storage's part in it; Appending, Holding, Committing,
--     CommitRule, Leading and Electing on the leader's side. Samples holds the nodes of the tests.
--   Node: Request and Replies are src/core/raft_node.rs, Server is src/core/raft_server.rs; Sending,
--     Confirm, Deciding, Submit and StaleTerm are on these.
--   Api: Handlers is src/api/client_http.rs; Commands and Reads are on it.
--   Cluster: several nodes that elect a leader. World is the step relation: the calls of the cores'
--     methods, `RaftNode::request_votes` with its replies, crashes and restarts. Quorum is on
--     majorities, Voting on one node, Safety, VoteSteps and Replies on all of them, Elections on the
--     whole.
--   Chaos: History and Checker are the two files of the same names in chaos-test/src. Linear states
--     linearizability apart from the search. Member and Indices are on sorting and indices, Tries,
--     Search, Complete and Fuel on the search, Fast on the checks before it, Late on writes whose
--     outcome the client does not know, Verdict, Split and Keys on the whole.
--
-- Conventions. A method that changes the core takes it and returns it. A Rust `Result` is a `Result`;
-- a panic (`expect`, `panic!`) is `none`. A formatted message is a datum with the format's arguments
-- where a format has more than texts. `Instant::now()` is an argument. A `HashMap` is an association
-- list in which an insertion replaces; the program never depends on the order of one. What `println!`
-- writes is left out.
--
-- Concurrency. A loop of `RaftNode` over replies takes the list of arrivals in their order. Each
-- arrival carries what other tasks have done to the core since the lock was last held, as a function
-- that may panic, so a theorem on a loop holds for every interleaving of whole locked sections.
-- `handle_read_index` takes such a function for each of the other places where its task is without the
-- lock: before `confirm_leadership`, before that function's last look, after it, and at each wait. The
-- cluster's steps are single calls under a node's lock, in any order, and a restart falls between two
-- calls: a crash between the two saves of one call is not a step.
--
-- Loops. `apply_loop` counts its rounds, and there are `commit_index - last_applied` of them: each
-- round of the source raises `last_applied` by one. `find_first_index_for_term` recurs on the index
-- that it lowers. `poll_loop` takes one entry for each wait before its five seconds are over. All
-- other loops run over lists. Only the checker's `search` takes fuel: the number of the operations
-- of the key, of which each call places one. `to_string` looks for the number of digits among 1 to
-- 20, which is enough for a `u64`.
--
-- Not modelled: the transports (src/transport), the timers and channels of the run loop in
-- src/core/raft_server.rs, src/core/config.rs and the binary, the test support in src/testing.rs,
-- and the client, the containers and the runner of the chaos tests: they are input and output, or
-- the runtime's. Of `FileStorage`, the directory, the temporary file of a rewrite, which nothing
-- reads, and files that are no UTF-8 are left out. A
-- well-formed core (`LogOk`) has a log whose indices follow on from its snapshot and stay below
-- 2 ^ 64.
pub mod Prelude
pub mod Types
pub mod Storage
pub mod Machine
pub mod Core
pub mod Node
pub mod Api
pub mod Chaos
pub mod Cluster
