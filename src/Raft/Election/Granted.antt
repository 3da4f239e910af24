-- ===== src/Raft/Election/Granted.antt =====
-- An election in which every peer that is asked grants its vote in time.
use quaso.Prelude.{
  ℕ, suc, ◌+◌, ◌≤◌, ◌<◌, ◌≡◌, refl, String, true, some, List, [], ◌∷◌, ◌++◌, arith, length,
  length-append, le→leb, lt→leb, le→ltb, In, inl, inr,
}
use native.Mathlib.Decide.{dec_le}
use quaso.Prelude.Exec.{done}
use quaso.Raft.Data.{Instant, Timer, ElectionVoteRequest, ElectionVoteResponse, request_vote_rpc}
use quaso.Raft.Client.{Bytes, Network, send}
use quaso.Raft.Node.{Raft, on_node_state, get_quorum_length}
use quaso.Raft.Election.{
  win, add_vote, vote_request, stand, count_votes, handle_vote, handle_reply, election_round,
  election_loop, election_section,
}

module _ {T : Type 0} (net : Network T) where
  -- The peer at the address answers with its vote.
  pub record IsGranted (req : ElectionVoteRequest) (i : ℕ) (conn : String) : Type 0 where
    pub bytes : Bytes
    pub response : ElectionVoteResponse
    pub sent : send net i (request_vote_rpc req) conn ≡ done (some bytes)
    pub read : net.vote_response bytes ≡ some response
    pub granted : response.vote_granted ≡ true

module _ {T : Type 0} (net : Network T) (clock : ℕ → Instant) where
  granted-election_loop :
      (req : ElectionVoteRequest) (quorum i : ℕ) (conns : List String) (r : Raft T)
      → 0 < length conns
      → quorum ≤ length r.votes_recieved + length conns
      → ((i : ℕ) (conn : String) → In conn conns → IsGranted net req i conn)
      → ((i : ℕ) → clock i ≤ r.election_timeout)
      → (election_loop net clock req quorum i conns r).0 ≡ done (some win)
  unfolding election_loop election_round handle_reply handle_vote count_votes add_vote
  granted-election_loop req quorum i [] r asked enough grants early = absurd (omega arith)
  granted-election_loop req quorum i (conn ∷ conns) r asked enough grants early =
      let g = grants i conn (inl refl) in
      let votes = r.votes_recieved ++ g.response.node_id ∷ [] in
      let more : length votes ≡ length r.votes_recieved + 1 =
        length-append r.votes_recieved (g.response.node_id ∷ []) in
      elim (dec_le quorum (length votes)) [
        | yes there ↦
            rw
              (
                le→ltb r.election_timeout (clock i) (early i),
                g.sent,
                g.read,
                g.granted,
                le→leb quorum (length votes) there,
              )
              refl
        | no short ↦
            rw
              (
                le→ltb r.election_timeout (clock i) (early i),
                g.sent,
                g.read,
                g.granted,
                lt→leb quorum (length votes) (omega arith),
              )
              (granted-election_loop req quorum (suc i) conns
                (on_node_state (add_vote g.response.node_id) r) (omega (arith, more, enough))
                (omega (arith, more, enough)) (λ j c m. grants j c (inr m)) early)
      ]

  -- A candidate has at least one connection. If every peer that it asks is reached, takes the
  -- request and answers with its vote, and no round of the loop comes after the election
  -- timeout, then the locked part of the election ends in a win.
  pub all_granted_wins :
      (t : Timer) (r : Raft T)
      → 0 < length r.connections
      → ((i : ℕ) (conn : String)
          → In conn r.connections
          → IsGranted net (vote_request (stand t r)) i conn)
      → ((i : ℕ) → clock i ≤ (stand t r).election_timeout)
      → (election_section net clock t r).0 ≡ done (some win)
  unfolding election_section stand get_quorum_length
  all_granted_wins t r asked grants early =
      let s = stand t r in
      granted-election_loop (vote_request s) (get_quorum_length s) 0 s.connections s asked
        (omega arith) grants early
