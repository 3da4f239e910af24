-- ===== src/Raft/Append.antt =====
-- `Server::append_entries` of raft/src/server/rpc.rs: the handler of a leader's entries.
pub mod Accept
pub mod Refuse
pub mod Commit
pub mod Outcome
pub mod Log
pub mod Merged
pub mod Conflict
pub mod Vote
mod Tests
use quaso.Prelude.{
  ◌-◌, Bool, true, false, not, ◌&&◌, some, List, ◌++◌, ltb, leb, ◌==◌, if◌then◌else◌, length,
  get_elem?, take, usize_add, usize_sub,
}
use quaso.Prelude.Exec.{Exec, done, pure, gets, modify, expect, ◌>>=◌, ◌>>◌}
use quaso.Raft.Data.{
  NodeId, LogIndex, follower, leader, role_eq, LogEntry, State, Shared, Timer, AppendEntriesRequest,
  AppendEntriesResponse, reset_election_timeout, transition_to_term, set_voted_for, set_log,
  set_commited_index, restart_election_timer, set_leader_heartbeat,
}
use quaso.Raft.Deliver.{deliver_range}

module _ {T : Type 0} where
  abbrev pub append_response : NodeId → Bool → Shared T → AppendEntriesResponse
  append_response node_id success s = record {
    node_id = node_id;
    term = s.node_term;
    success = success;
  }

  abbrev respond : NodeId → Bool → Exec (Shared T) AppendEntriesResponse
  respond node_id success = gets (append_response node_id success)

  abbrev pub on_state : (State T → State T) → Shared T → Shared T
  on_state f s = record s { state = f s.state }

  -- The first test: only a leader compares the terms.
  unfoldable pub is_stale : AppendEntriesRequest T → State T → Bool
  is_stale req s = ltb req.term s.node_term && role_eq s.node_type leader

  -- `prev_log_index <= log_len && log[prev_log_index - 1].term != prev_log_term`, in a log that is
  -- not empty. `&&` does not index where its left side fails.
  unfoldable pub prev_mismatch : AppendEntriesRequest T → Exec (Shared T) Bool
  prev_mismatch req s =
      if ltb 0 (length s.log) && leb req.prev_log_index (length s.log)
      then (do
        e ← λ s'. (expect (get_elem? s'.log (usize_sub req.prev_log_index 1)), s')
        pure (not (e.term == req.prev_log_term)))
          s
      else (done false, s)

  -- From the test on the terms to the second transition.
  unfoldable pub accept : Timer → AppendEntriesRequest T → State T → State T
  unfolding transition_to_term reset_election_timeout
  accept t req s =
      let s' =
        if ltb s.node_term req.term
        then set_voted_for (some req.leader_id) (transition_to_term follower req.term s)
        else s in
      transition_to_term follower req.term (restart_election_timer t (set_leader_heartbeat true s'))

  -- The new log.
  unfoldable pub write_log : AppendEntriesRequest T → List (LogEntry T) → List (LogEntry T)
  write_log req log =
      let new_log_size = usize_add (length req.entries) req.prev_log_index in
      if ltb new_log_size (length log)
      then take (usize_sub req.prev_log_index 1) log ++ req.entries
      else log ++ req.entries

  -- From `if req.leader_commit > state.volatile_state.commited_index`.
  unfoldable pub follow_commit : LogIndex → Exec (Shared T) (Unit {0})
  follow_commit leader_commit = do
    current ← gets (λ s. s.commited_index)
    if ltb current leader_commit
        then (do
          deliver_range (leader_commit - current) current
          modify (on_state (set_commited_index leader_commit)))
        else pure tt

  unfoldable pub append_entries :
      NodeId → Timer → AppendEntriesRequest T → Exec (Shared T) AppendEntriesResponse
  unfolding is_stale prev_mismatch accept write_log
  append_entries node_id t req = do
    stale ← gets (λ s. is_stale req s.state)
    if stale then respond node_id false else do
      mismatch ← prev_mismatch req
      if mismatch then respond node_id false else do
        log_len ← gets (λ s. length s.log)
        if ltb 0 log_len && ltb log_len req.prev_log_index
            then respond node_id false
            else if ltb log_len req.prev_log_index
            then respond node_id false
            else do
              modify (on_state (accept t req))
              modify (λ s. on_state (set_log (write_log req s.log)) s)
              follow_commit req.leader_commit
              respond node_id true
