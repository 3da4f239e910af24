-- ===== src/Raft/Election.antt =====
-- The candidate's side of raft/src/server/state.rs: `Raft::handle_candidate_election`, and the
-- methods that start an election. The state is locked while the votes come in. What happens after
-- a `drop(state)` needs the lock once more: `gap` is what other tasks do to the state in between.
pub mod Votes
pub mod Leader
pub mod Granted
pub mod Lone
pub mod OwnVote
pub mod Twice
mod Tests
use quaso.Prelude.{
  ℕ, suc, String, not, ◌&&◌, Option, none, some, List, [], ◌∷◌, ◌++◌, ltb, leb, if◌then◌else◌,
  length, last?, usize_add,
}
use quaso.Prelude.Exec.{Exec, done, pure, lift, modify, ◌>>=◌}
use quaso.HashMap as Map
use quaso.HashMap.{HashMap}
use quaso.Raft.Data.{
  NodeId, NodeTerm, LogIndex, Instant, follower, candidate, leader, role_eq, LogEntry, State,
  Shared, Timer, ElectionVoteRequest, ElectionVoteResponse, request_vote_rpc, set_voted_for,
  reset_election_timeout, restart_election_timer,
}
use quaso.Raft.Client.{Bytes, Network, send}
use quaso.Raft.Node.{Raft, on_node_state, transition_to_term, transition_wrapper, get_quorum_length}

-- What is left to do once the lock is released.
pub data After : Type 0 where
  retry win : After
  step_down : NodeTerm → After

module _ {T : Type 0} where
  abbrev last_term : Option (LogEntry T) → NodeTerm
  last_term none = 0
  last_term (some last_log_entry) = last_log_entry.term

  -- An empty log has length 0, so both branches of the source send the length.
  unfoldable pub vote_request : Raft T → ElectionVoteRequest
  vote_request r = record {
    candidate_id = r.node_id;
    term = r.node_term;
    last_log_index = length r.log;
    last_log_term = last_term (last? r.log);
  }

  -- The lines before the request is built.
  unfoldable pub stand : Timer → Raft T → Raft T
  unfolding reset_election_timeout
  stand t r =
      on_node_state
        (λ s. set_voted_for (some r.node_id) (record (restart_election_timer t s) {
          volatile_state = record (reset_election_timeout t s.volatile_state) {
            votes_recieved = r.node_id ∷ [];
          };
        }))
        r

  add_vote : NodeId → State T → State T
  add_vote voter s = record s {
    volatile_state = record s.volatile_state { votes_recieved = s.votes_recieved ++ voter ∷ [] };
  }

-- `connections.iter().for_each(…)`
unfoldable pub lead_indices : LogIndex → List String → HashMap LogIndex → HashMap LogIndex
lead_indices index [] m = m
lead_indices index (addr ∷ addrs) m = lead_indices index addrs (Map.insert addr index m)

module _ {T : Type 0} where
  -- Both maps are cleared and filled again.
  unfoldable pub reset_indices : List String → State T → State T
  unfolding lead_indices
  reset_indices connections s = record s {
    volatile_state = record s.volatile_state {
      next_index = lead_indices (usize_add (length s.log) 1) connections [];
      match_index = lead_indices 0 connections [];
    };
  }

  -- From `if state.volatile_state.votes_recieved.len() >= required_quorum`.
  unfoldable pub count_votes : ℕ → Exec (Raft T) (Option After)
  unfolding reset_indices
  count_votes required_quorum r =
      if leb required_quorum (length r.votes_recieved)
      then (done (some win), on_node_state (reset_indices r.connections) r)
      else (done none, r)

  unfoldable pub handle_vote : ℕ → Option ElectionVoteResponse → Exec (Raft T) (Option After)
  unfolding add_vote count_votes
  handle_vote required_quorum none r = (done none, r)
  handle_vote required_quorum (some resp) r =
      if resp.vote_granted
      then count_votes required_quorum (on_node_state (add_vote resp.node_id) r)
      else if leb r.node_term resp.term
      then (done (some (step_down resp.term)), on_node_state (set_voted_for none) r)
      else count_votes required_quorum r

  handle_reply : Network T → ℕ → Option Bytes → Exec (Raft T) (Option After)
  unfolding handle_vote
  handle_reply net required_quorum none r = (done none, r)
  handle_reply net required_quorum (some resp) r =
      handle_vote required_quorum (net.vote_response resp) r

  -- One round of the loop; `some` is a `break`, and `clock i` is the time of round `i`.
  unfoldable pub election_round :
      Network T
      → (ℕ → Instant)
      → ElectionVoteRequest
      → ℕ
      → ℕ
      → String
      → Exec (Raft T) (Option After)
  unfolding handle_reply
  election_round net clock req required_quorum i conn r =
      if ltb r.election_timeout (clock i)
      then (done (some retry), r)
      else (do
        resp ← lift (send net i (request_vote_rpc req) conn)
        handle_reply net required_quorum resp)
          r

  unfoldable pub election_loop :
      Network T
      → (ℕ → Instant)
      → ElectionVoteRequest
      → ℕ
      → ℕ
      → List String
      → Exec (Raft T) (Option After)
  election_loop net clock req required_quorum i [] = pure none
  election_loop net clock req required_quorum i (conn ∷ conns) = do
    after ← election_round net clock req required_quorum i conn
    elim after [
      | some a ↦ pure (some a)
      | none ↦ election_loop net clock req required_quorum (suc i) conns
    ]

  -- All that happens under the first lock.
  unfoldable pub election_section : Network T → (ℕ → Instant) → Timer → Exec (Raft T) (Option After)
  unfolding stand
  election_section net clock t r =
      let r' = stand t r in
      election_loop net clock (vote_request r') (get_quorum_length r') 0 r'.connections r'

  -- The method called after the lock is released.
  unfoldable pub finish : After → Raft T → Raft T
  unfolding transition_wrapper transition_to_term
  finish retry r = transition_wrapper candidate 1 r
  finish win r = transition_wrapper leader 0 r
  finish (step_down term) r = transition_to_term follower term r

  abbrev pub between : (Shared T → Shared T) → Raft T → Raft T
  between gap r = record r { shared = gap r.shared }

  abbrev resume : (Shared T → Shared T) → Option After → Exec (Raft T) (Unit {0})
  resume gap none = pure tt
  resume gap (some a) = modify (λ r. finish a (between gap r))

  unfoldable pub handle_candidate_election :
      Network T → (ℕ → Instant) → Timer → (Shared T → Shared T) → Exec (Raft T) (Unit {0})
  unfolding election_section finish
  handle_candidate_election net clock t gap = do
    after ← election_section net clock t
    resume gap after

  -- `now` is the time of the test; the lock is released before each of the two calls.
  unfoldable pub maybe_transition_candidate :
      Network T
      → Instant
      → (ℕ → Instant)
      → Timer
      → (Shared T → Shared T)
      → (Shared T → Shared T)
      → (Shared T → Shared T)
      → Exec (Raft T) (Unit {0})
  unfolding transition_wrapper handle_candidate_election
  maybe_transition_candidate net now clock t gap gap' gap'' r =
      if role_eq r.node_type leader
      then (done tt, r)
      else if ltb r.election_timeout now && not r.recieved_leader_heartbeat
      then handle_candidate_election net clock t gap''
          (between gap' (transition_wrapper candidate 1 (between gap r)))
      else (done tt, r)

  unfoldable pub maybe_transition_leader : (Shared T → Shared T) → Raft T → Raft T
  unfolding transition_wrapper
  maybe_transition_leader gap r =
      if not (role_eq r.node_type candidate) then r else transition_wrapper leader 0 (between gap r)
