-- ===== src/Raft.antt =====
-- The consensus layer of raft/src/server: its data, its messages and the operations on them.
pub mod Data
pub mod Deliver
pub mod Vote
pub mod Append
pub mod Node
pub mod Client
pub mod Heartbeat
pub mod Commit
pub mod Committed
pub mod Replicate
pub mod Election
pub mod Server
pub mod Ping
pub mod Broadcast
pub mod Persist
pub mod Tick
pub mod History
pub mod Cluster
pub mod Samples
