-- ===== src/Lib.antt =====
-- Quaso is a replicated key-value store. The crate `raft` is its consensus layer: every node keeps a
-- log of entries, one node is elected leader, and what a quorum has is committed. The crate `kv` is
-- the store: clients send it commands over a socket, the commands of a leader go into the log, and
-- committed entries come back over a channel and are applied to a map. This library translates both
-- from the source, and proves what the nodes do to their state, message by message and tick by tick.
--
-- How the parts meet in the program. A node's `State` stands behind one lock. Its listener task
-- takes requests of other nodes and answers them; its ticker sends heartbeats, commits and stands
-- for election. Both deliver committed entries to the store's task, which also takes the commands
-- that the clients' tasks have put in a queue.
--
-- What the files are about:
--   Prelude and its children: tests, lists over the native numbers, machine words, and `Exec`, the
--     state-passing functions whose outcome is a value or a panic, the state kept either way.
--   HashMap: `HashMap<String, V>` as an association list with one pair for each key.
--   Text: white space, `trim` and `split` of Rust's `str`. Config: raft/src/utils.rs, the configuration;
--     Config/Number has `format!` and `parse` on numbers.
--   Raft/Data: the types and small methods of raft/src/server/state.rs and log.rs, and the messages of
--     rpc.rs. `Shared` is a node's state with the entries that it has delivered so far.
--   Raft/Vote and its children: `Server::request_vote`.
--   Raft/Append and its children: `Server::append_entries`. `is_stale`, `prev_mismatch`, `accept`,
--     `write_log` and `follow_commit` are its parts, in the order of the source. Outcome tells the
--     three ways in which it ends apart, Log has what becomes of the log.
--   Raft/Deliver: the delivery loop that the handler and the leader's commit share.
--   Raft/Server and its children: `Server::start_listener`, over what is read from each connection.
--   Raft/Ping: `Raft::ping_nodes` and `Raft::start_raft_server`.
--   Raft/Client: `Client::send`. Raft/Node: `Raft` of state.rs, and its small methods.
--   Raft/Heartbeat, Raft/Commit, Raft/Election: `maybe_send_heartbeat`, `maybe_commit_log_entries`,
--     `handle_candidate_election` and its callers. Raft/Replicate has a heartbeat from end to end,
--     and Replicate/CatchUp a sequence of them to one follower.
--   Raft/Committed: the steps of a node, and what it has delivered beside its log.
--   Raft/Broadcast: the listeners of the other nodes (`Server::start_listener`) at the other end of the
--     leader's connections (`Client::send`). Heard is one node's part of a heartbeat, Ready what the
--     leader knows, before and after; Spread has two rounds of heartbeat and commit, and Won the
--     same for a leader that has just won its election.
--   Raft/Election/Granted has an election in which all peers grant their votes; Election/Twice has a
--     vote given between a node's transition and its election.
--   Raft/History: what happens to one node as a sequence of steps, each with the votes that it gives
--     away. Raft/Cluster: a cluster as the histories of its members side by side,
--     and Cluster/Listening elections whose votes come from the members' listeners.
--   Raft/Persist and its children: `PersistentState::persist` and `init_state`, and
--     `Raft::try_persist_state`. Raft/Tick and its children: `Raft::tick`, over a list of rounds.
--     Persist/Truncated is the ticker after a request has cut the log.
--   Kv/Command: kv/src/storage/util.rs and `Operation::parse_command`.
--   Kv/Store: `StorageLayer` and `KVStore` of kv/src/storage/kv.rs. Store/Replica puts the
--     store beside the commit of its node, Store/Run has a store from its start on, whatever
--     happens to it, with Raft/Committed for its node. Store/Agree has a store at every node, and
--     Agree/Written a client's write, from its answer to the reads of it.
--   Kv/Server: kv/src/main.rs, `KVStore::init_from_conf` and the loop of `KVStore::handle_client`.
--   Kv/Client and its children: kv/src/bin/client.rs. `serve_client` of Wire puts the loop of the
--     store's task at the other end of the client's connection; each side handles what its reads give.
--   The files called Tests, and Raft/Samples, have runs on concrete nodes, messages and commands.
--
-- What stands for the rest of the world. The clock and the random timeouts are arguments (`Timer`, and
-- a time for each round of an election). bincode and the sockets are the record `Network`, and bincode
-- at both ends the record `Codec`; the result of a connection depends on its number in the loop. What
-- other tasks do to the state while a method has released the lock is a function `gap`. The order in
-- which a map of frequencies is iterated is a function that permutes it. The file system is the record
-- `Disk`, the YAML crate the record `Yaml`. How a line or an answer that is written to a client's
-- connection is cut into reads is the record `Wire`; both sides read with one `read_buf` into a new
-- `Vec`, which takes at most 64 bytes, so `IsWire` says of texts of that length only that they are
-- read whole. Serialisation of an answer and its writing are taken to succeed. The receiver of the
-- delivery channel lives as long as the node.
--
-- Numbers. Terms are `u32` and indices `usize` of 64 bits, with the wrap-around of a release build;
-- the quorum is computed in `f32` by the source, which is exact below 2^24 connections. Every loop of
-- the source runs over a list or a range that is known when it starts, so it is structural recursion,
-- and no fuel is needed. The endless loops of the listener and the store run over the list of what
-- arrives. `to_lowercase` is that of ASCII: no other letter is lowered to a letter of a command.
--
-- What the statements on histories assume. `IsCurrent`: no AppendEntries is older than the node's term,
-- which the handler does not ensure. `IsForward`: what is called after an election does not go back to
-- an older term, which the released lock does not ensure. `OnlyAppends`: between its transition and its
-- election nothing but appending to the log happens to a candidate. `IsListening`: what comes back over
-- a connection was written by the listener of the node with that address, at some step of its history.
-- What the statements on all nodes assume: `IsCodec`, that bincode gives back what it was given; and
-- `IsReady`, that the leader's next indices are those of what its followers have. What the statement on
-- a store's run assumes: `ReachesEnd`, that no request ends inside a log, where the handler cuts it
-- below what is committed; and that nothing panics, since a panic ends its task.
--
-- Not modelled: the parsing of arguments, the set-up of logging and the spawning of tasks in
-- kv/src/main.rs, the flushing of the terminal in kv/src/bin/client.rs, `Raft::start_consensus`, which
-- is a `todo!()`, and log messages.
pub mod Prelude
pub mod HashMap
pub mod Text
pub mod Config
pub mod Raft
pub mod Kv
