-- ===== src/Raft/Vote.antt =====
-- `Server::request_vote` of raft/src/server/rpc.rs: the handler of a candidate's vote request.
pub mod Grant
mod Tests
use Prim.Native.Nat.{compare, Ordering}
use quaso.Prelude.{
  ℕ, ◌≡◌, Bool, true, false, not, ◌&&◌, Option, none, some, List, ltb, leb, ◌==◌, if◌then◌else◌,
  length, last?,
}
use quaso.Raft.Data.{
  NodeId, NodeTerm, LogIndex, follower, LogEntry, State, Timer, ElectionVoteRequest,
  ElectionVoteResponse, reset_election_timeout, transition_to_term, set_voted_for,
  restart_election_timer, set_leader_heartbeat,
}

-- `[Some(candidate), None].contains(voted_for)`
unfoldable pub vote_is_free : NodeId → Option NodeId → Bool
vote_is_free candidate none = true
vote_is_free candidate (some v) = v == candidate

-- The `match voter_last_entry.term.cmp(&req.last_log_term)`.
up_to_date : Ordering → LogIndex → LogIndex → Bool
up_to_date Ordering.gt log_len last_log_index = false
up_to_date Ordering.lt log_len last_log_index = true
up_to_date Ordering.eq log_len last_log_index = leb log_len last_log_index

is_none : Option NodeId → Bool
is_none none = true
is_none (some v) = false

module _ {T : Type 0} where
  -- The value of `grant` before `if grant`.
  grant_of : Option (LogEntry T) → ElectionVoteRequest → State T → Bool
  unfolding up_to_date is_none
  grant_of (some voter_last_entry) req s =
      up_to_date (compare voter_last_entry.term req.last_log_term) (length s.log) req.last_log_index
  grant_of none req s = is_none s.voted_for

  abbrev pub vote_response : NodeId → Bool → State T → ElectionVoteResponse
  vote_response node_id granted s = record {
    node_id = node_id;
    term = s.node_term;
    vote_granted = granted;
  }

  grant_vote : NodeId → Timer → ElectionVoteRequest → State T → State T
  unfolding transition_to_term reset_election_timeout
  grant_vote node_id t req s = set_leader_heartbeat true (
      restart_election_timer t
        (transition_to_term follower req.term (set_voted_for (some req.candidate_id) s)))

  unfoldable pub request_vote :
      NodeId → Timer → ElectionVoteRequest → State T → ElectionVoteResponse × State T
  unfolding vote_is_free grant_of grant_vote
  request_vote node_id t req s =
      if ltb req.term s.node_term
      then (vote_response node_id false s, s)
      else if not (vote_is_free req.candidate_id s.voted_for) && req.term == s.node_term
      then (vote_response node_id false s, s)
      else let grant = grant_of (last? s.log) req s in
        let s' = if grant then grant_vote node_id t req s else s in
        (vote_response node_id grant s', s')
