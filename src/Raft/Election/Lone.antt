-- ===== src/Raft/Election/Lone.antt =====
-- A cluster of one node: the votes are counted in the loop over the other nodes, which has no round.
use quaso.Prelude.{ℕ, ◌≡◌, refl, none, List, [], String}
use quaso.Prelude.Exec.{done}
use quaso.Raft.Data.{Instant, Timer, Shared, ElectionVoteRequest}
use quaso.Raft.Client.{Network}
use quaso.Raft.Node.{Raft, get_quorum_length}
use quaso.Raft.Election.{vote_request, stand, election_loop, handle_candidate_election}

module _ {T : Type 0} where
  loop_alone :
      (net : Network T) (clock : ℕ → Instant) (req : ElectionVoteRequest) (q : ℕ)
      (conns : List String) (r : Raft T)
      → conns ≡ []
      → election_loop net clock req q 0 conns r ≡ (done none, r)
  unfolding election_loop
  loop_alone net clock req q conns r e = rw e

  -- A candidate without connections ends its election as it began it, but for the node's own
  -- vote and the new timeout: with the same role in the same term.
  pub lone_node_never_wins :
      (net : Network T) (clock : ℕ → Instant) (t : Timer) (gap : Shared T → Shared T) (r : Raft T)
      → r.connections ≡ []
      → (handle_candidate_election net clock t gap r ≡ (done tt, stand t r))
        × ((stand t r).node_type ≡ r.node_type)
        × ((stand t r).node_term ≡ r.node_term)
  unfolding handle_candidate_election
  lone_node_never_wins net clock t gap r alone =
      let s = stand t r in
      (
        rw (loop_alone net clock (vote_request s) (get_quorum_length s) s.connections s alone),
        refl,
        refl,
      )
