-- ===== src/Raft/Election/Twice.antt =====
-- The lock is free between `transition_wrapper(Candidate, 1)` and the election: a vote that is asked
-- for in between is granted, and the node goes on with its own election in the same term.
use quaso.Prelude.{
  ℕ, ◌≤◌, ◌<◌, ◌≡◌, ◌≢◌, refl, ap, ◌∙◌, In, String, true, false, some, arith, length, lt→ltb,
  u32_mod,
}
use quaso.Prelude.Exec.{Outcome, done}
use quaso.Raft.Data.{
  NodeId, NodeRole, follower, Instant, Timer, Shared, ElectionVoteRequest, leader, role_eq,
  candidate,
}
use quaso.Raft.Client.{Network}
use quaso.Raft.Vote.{request_vote}
use quaso.Raft.Vote.Grant.{MayVote, grant_iff_MayVote, grant-HasVoted}
use quaso.Raft.Node.{Raft, transition_wrapper}
use quaso.Raft.Election.{
  win, between, vote_request, stand, election_section, finish, handle_candidate_election,
  maybe_transition_candidate,
}
use quaso.Raft.Election.Granted.{IsGranted, all_granted_wins}
use quaso.Raft.Election.Leader.{handle_win}
use quaso.Raft.Election.Votes.{election_section-node_term}

other_role : (role : NodeRole) → role ≢ leader → role_eq role leader ≡ false
other_role follower h = refl
other_role candidate h = refl
other_role leader h = absurd (h refl)

module _ {T : Type 0} where
  -- The handler of the listener's task, between two locks.
  abbrev pub handles : NodeId → Timer → ElectionVoteRequest → Shared T → Shared T
  handles node_id t ask s = record s { state = (request_vote node_id t ask s.state).1 }

  -- The node when it takes the lock for its election.
  abbrev pub asked : Timer → ElectionVoteRequest → Raft T → Raft T
  asked t ask r = between (handles r.node_id t ask) (transition_wrapper candidate 1 r)

  module _ (net : Network T) (clock : ℕ → Instant) (t : Timer) where
    -- An election of a node in any role ends in a leader, if all the votes are granted.
    election_leads :
        (s : Raft T)
        → s.node_term < u32_mod
        → 0 < length s.connections
        → ((i : ℕ) (conn : String)
            → In conn s.connections
            → IsGranted net (vote_request (stand t s)) i conn)
        → ((i : ℕ) → clock i ≤ (stand t s).election_timeout)
        → let after = (handle_candidate_election net clock t (λ x. x) s).1 in
          (after.node_type ≡ leader) × (after.node_term ≡ s.node_term)
    unfolding finish transition_wrapper
    election_leads s word some_peers grants early =
        let x = election_section net clock t s in
        let won : x ≡ (done (some win), x.1) =
          ap (λ o. (o, x.1)) (all_granted_wins net clock t s some_peers grants early) in
        let end : (handle_candidate_election net clock t (λ y. y) s).1 ≡ finish win x.1 =
          ap (λ (y : Outcome (Unit {0}) × Raft T). y.1)
            (handle_win net clock t s x.1 won (λ y. y)) in
        (
          ap (λ (y : Raft T). y.node_type) end,
          ap (λ (y : Raft T). y.node_term) end
              ∙ omega (arith, election_section-node_term net clock t s),
        )

    next_word : (r : Raft T) → (transition_wrapper candidate 1 r).node_term < u32_mod
    unfolding transition_wrapper
    next_word r = omega arith

    -- The test of the role, the time and the flag leads to the election.
    candidate_runs :
        (r : Raft T) (t' : Timer) (now : Instant) (ask : ElectionVoteRequest)
        → r.node_type ≢ leader
        → r.election_timeout < now
        → r.recieved_leader_heartbeat ≡ false
        → maybe_transition_candidate net now clock t (λ s. s) (handles r.node_id t' ask) (λ s. s) r
          ≡ handle_candidate_election net clock t (λ s. s) (asked t' ask r)
    unfolding maybe_transition_candidate
    candidate_runs r t' now ask other late quiet =
        let no : role_eq r.node_type leader ≡ false = other_role r.node_type other in
        rw (no, lt→ltb r.election_timeout now late, quiet)

    -- A node that is not leading has an election timeout that is over and has heard no leader.
    -- Once it is a candidate of the next term its listener handles a vote request for that term
    -- that it may grant, before the node takes the lock for its election. If it has a
    -- connection, no round of the election's loop comes after the new election timeout, and
    -- every peer is reached and answers the node's request with its vote, then it has granted
    -- its vote to the other candidate, and it ends as the leader of that same term.
    pub stands_after_voting :
        (r : Raft T) (t' : Timer) (now : Instant) (ask : ElectionVoteRequest)
        → r.node_type ≢ leader
        → r.election_timeout < now
        → r.recieved_leader_heartbeat ≡ false
        → MayVote ask (transition_wrapper candidate 1 r).state
        → ask.term ≡ (transition_wrapper candidate 1 r).node_term
        → 0 < length r.connections
        → ((i : ℕ) (conn : String)
            → In conn r.connections
            → IsGranted net (vote_request (stand t (asked t' ask r))) i conn)
        → ((i : ℕ) → clock i ≤ (stand t (asked t' ask r)).election_timeout)
        → let transitioned = transition_wrapper candidate 1 r in
          let granted = request_vote r.node_id t' ask transitioned.state in
          let after =
            (maybe_transition_candidate net now clock t
              (λ s. s)
              (handles r.node_id t' ask)
              (λ s. s)
              r).1 in
          (granted.0.vote_granted ≡ true)
          × (granted.1.voted_for ≡ some ask.candidate_id)
          × (after.node_type ≡ leader)
          × (after.node_term ≡ ask.term)
    unfolding transition_wrapper
    stands_after_voting r t' now ask other late quiet may same some_peers grants early =
        let transitioned = transition_wrapper candidate 1 r in
        let granted = (grant_iff_MayVote r.node_id t' ask transitioned.state).1 may in
        let has = grant-HasVoted r.node_id t' ask transitioned.state granted in
        let voted : (asked t' ask r).node_term ≡ ask.term = has.term in
        let (leads, term) =
          election_leads (asked t' ask r) (omega (arith, voted, same, next_word r)) some_peers
            grants early in
        rw (candidate_runs r t' now ask other late quiet) (granted, has.voted, leads, term ∙ voted)
