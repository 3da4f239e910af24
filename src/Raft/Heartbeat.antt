-- ===== src/Raft/Heartbeat.antt =====
-- `Raft::maybe_send_heartbeat` of raft/src/server/state.rs: the leader sends each follower what it
-- has not got. The state is locked from the first line to the last.
pub mod Bounds
pub mod Returns
mod Tests
use quaso.Prelude.{
  ℕ, suc, ◌-◌, String, Bool, true, false, not, Option, none, some, List, [], ◌∷◌, ltb, leb, ◌==◌,
  if◌then◌else◌, length, get_elem?, drop, usize_add,
}
use quaso.Prelude.Exec.{
  Exec, panic, Outcome, done, panic, pure, lift, gets, modify, expect, ◌>>=◌, ◌>>◌, map_done,
}
use quaso.HashMap as Map
use quaso.HashMap.{HashMap}
use quaso.Raft.Data.{
  NodeId, NodeTerm, LogIndex, leader, role_eq, LogEntry, State, VolatileState, Timer,
  AppendEntriesRequest, append_entries_rpc, reset_heartbeat_timeout,
}
use quaso.Raft.Client.{Bytes, Network, send}
use quaso.Raft.Node.{Raft, on_node_state}

-- `prev_log_index`, `prev_log_term` and `entries`.
pub record Tail (T : Type 0) : Type 0 where
  pub prev_log_index : LogIndex
  pub prev_log_term : NodeTerm
  pub entries : List (LogEntry T)

back_off : String → Option LogIndex → VolatileState → VolatileState
back_off conn none v = v
back_off conn (some next_index) v =
    if ltb 1 next_index
    then record v { next_index = Map.insert conn (next_index - 1) v.next_index }
    else v

-- What an answer does to the leader's indices.
unfoldable pub record_answer : String → ℕ → Bool → VolatileState → VolatileState
unfolding back_off
record_answer conn log_size true v = record v {
  next_index = Map.insert conn (usize_add log_size 1) v.next_index;
  match_index = if ltb 0 log_size then Map.insert conn log_size v.match_index else v.match_index;
}
record_answer conn log_size false v = back_off conn (Map.get conn v.next_index) v

module _ {T : Type 0} where
  -- `log[k..]`
  abbrev pub slice_from : List (LogEntry T) → ℕ → Option (List (LogEntry T))
  slice_from log k = if leb k (length log) then some (drop k log) else none

  abbrev pub no_tail : Tail T
  no_tail = record { prev_log_index = 0; prev_log_term = 0; entries = [] }

  -- `log[prev_log_index - 1].term` and `log[prev_log_index..]`, each of which may panic.
  abbrev tail_at : LogIndex → Option (LogEntry T) → Option (List (LogEntry T)) → Outcome (Tail T)
  tail_at prev_log_index (some e) (some entries) =
      done (record { prev_log_index = prev_log_index; prev_log_term = e.term; entries = entries })
  tail_at prev_log_index (some e) none = panic
  tail_at prev_log_index none entries = panic

  -- The body of `if log_size > 0`.
  unfoldable pub tail_from : List (LogEntry T) → Option LogIndex → Outcome (Tail T)
  tail_from log none = done no_tail
  tail_from log (some next_index) =
      let prev_log_index = next_index - 1 in
      if leb 2 next_index
      then tail_at prev_log_index (get_elem? log (prev_log_index - 1))
          (slice_from log prev_log_index)
      else if next_index == 1
      then done (record { prev_log_index = 0; prev_log_term = 0; entries = log })
      else done no_tail

  abbrev request_of : NodeId → State T → Tail T → AppendEntriesRequest T
  request_of node_id s tail = record {
    term = s.node_term;
    leader_id = node_id;
    prev_log_index = tail.prev_log_index;
    prev_log_term = tail.prev_log_term;
    entries = tail.entries;
    leader_commit = s.commited_index;
  }

  -- The request for one follower.
  unfoldable pub append_request : NodeId → String → State T → Outcome (AppendEntriesRequest T)
  unfolding tail_from
  append_request node_id conn s =
      map_done (request_of node_id s)
        (if ltb 0 (length s.log) then tail_from s.log (Map.get conn s.next_index) else done no_tail)

  abbrev pub on_volatile : (VolatileState → VolatileState) → Raft T → Raft T
  on_volatile f = on_node_state (λ s. record s { volatile_state = f s.volatile_state })

  unfoldable pub handle_answer : Network T → String → ℕ → Option Bytes → Exec (Raft T) (Unit {0})
  handle_answer net conn log_size none = pure tt
  handle_answer net conn log_size (some resp) = do
    de_resp ← lift (expect (net.append_response resp))
    modify (on_volatile (record_answer conn log_size de_resp.success))

  -- One round of `for conn in connections.iter()`.
  unfoldable pub heartbeat_to : Network T → ℕ → String → Exec (Raft T) (Unit {0})
  unfolding handle_answer
  heartbeat_to net i conn = do
    log_size ← gets (λ r. length r.log)
    req ← λ r. (append_request r.node_id conn r.state, r)
    resp ← lift (send net i (append_entries_rpc req) conn)
    handle_answer net conn log_size resp

  unfoldable pub heartbeat_loop : Network T → ℕ → List String → Exec (Raft T) (Unit {0})
  heartbeat_loop net i [] = pure tt
  heartbeat_loop net i (conn ∷ conns) = do heartbeat_to net i conn; heartbeat_loop net (suc i) conns

  -- The lines after the loop.
  unfoldable pub record_self : Timer → Raft T → Raft T
  unfolding reset_heartbeat_timeout
  record_self t r =
      let log_size = length r.log in
      on_volatile
        (λ v. reset_heartbeat_timeout t (record v {
          next_index = Map.insert r.listener_addr (usize_add log_size 1) v.next_index;
          match_index = Map.insert r.listener_addr log_size v.match_index;
        }))
        r

  -- `t` is the clock at the test, and `t'` the one at the reset.
  unfoldable pub maybe_send_heartbeat : Network T → Timer → Timer → Exec (Raft T) (Unit {0})
  unfolding heartbeat_loop record_self
  maybe_send_heartbeat net t t' = do
    r ← gets (λ r. r)
    if not (role_eq r.node_type leader)
        then pure tt
        else if ltb t.now r.heartbeat_timeout
        then pure tt
        else do heartbeat_loop net 0 r.connections; modify (record_self t')
