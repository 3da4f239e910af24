-- ===== src/Raft/Election/OwnVote.antt =====
-- A candidate that wins, or whose peers are all asked, still has the vote for itself.
use quaso.Prelude.{
  ℕ, suc, ◌≡◌, refl, ◌∙◌, String, Option, none, some, List, [], ◌∷◌, ltb, leb, length, Bool-cases,
  inl, inr,
}
use quaso.Prelude.Exec.{Exec, Outcome, done, panic, continue, pure}
use quaso.Raft.Data.{Instant, Timer, ElectionVoteRequest, ElectionVoteResponse, request_vote_rpc}
use quaso.Raft.Client.{Bytes, Network, send}
use quaso.Raft.Node.{Raft, get_quorum_length}
use quaso.Raft.Election.{
  After, retry, win, step_down, vote_request, stand, count_votes, handle_vote, handle_reply,
  election_round, election_loop, election_section,
}

module _ {T : Type 0} where
  -- The vote stays in the loop, unless it is left for another term.
  abbrev IsSteady : Raft T → Outcome (Option After) → Raft T → Type 0
  IsSteady r (done none) r' = r'.voted_for ≡ r.voted_for
  IsSteady r (done (some win)) r' = r'.voted_for ≡ r.voted_for
  IsSteady r _ r' = Unit

  count_votes-IsSteady :
      (quorum : ℕ) (r r' : Raft T)
      → r'.voted_for ≡ r.voted_for
      → IsSteady r (count_votes quorum r').0 (count_votes quorum r').1
  unfolding count_votes
  count_votes-IsSteady quorum r r' same =
      elim (Bool-cases (leb quorum (length r'.votes_recieved))) [
        | inl enough ↦ rw enough same
        | inr few ↦ rw few same
      ]

  handle_vote-IsSteady :
      (quorum : ℕ) (resp : Option ElectionVoteResponse) (r : Raft T)
      → IsSteady r (handle_vote quorum resp r).0 (handle_vote quorum resp r).1
  unfolding handle_vote
  handle_vote-IsSteady quorum none r = refl
  handle_vote-IsSteady quorum (some resp) r = elim (Bool-cases resp.vote_granted) [
    | inl granted ↦ rw granted (count_votes-IsSteady quorum r _ refl)
    | inr refused ↦ elim (Bool-cases (leb r.node_term resp.term)) [
      | inl behind ↦ rw (refused, behind) tt
      | inr ahead ↦ rw (refused, ahead) (count_votes-IsSteady quorum r r refl)
    ]
  ]

  IsSteady-trans :
      (r r' : Raft T) (o : Outcome (Option After)) (r'' : Raft T)
      → r'.voted_for ≡ r.voted_for
      → IsSteady r' o r''
      → IsSteady r o r''
  IsSteady-trans r r' panic r'' h k = tt
  IsSteady-trans r r' (done none) r'' h k = k ∙ h
  IsSteady-trans r r' (done (some win)) r'' h k = k ∙ h
  IsSteady-trans r r' (done (some retry)) r'' h k = tt
  IsSteady-trans r r' (done (some (step_down term))) r'' h k = tt

  IsSteady-then :
      (r : Raft T) (o : Outcome (Option After)) (r' : Raft T) (rest : Exec (Raft T) (Option After))
      → IsSteady r o r'
      → IsSteady r' (rest r').0 (rest r').1
      → let (o', r'') =
          continue o (λ after. elim after [ some a ↦ pure (some a) | none ↦ rest ]) r' in
        IsSteady r o' r''
  IsSteady-then r panic r' rest h k = tt
  IsSteady-then r (done (some a)) r' rest h k = h
  IsSteady-then r (done none) r' rest h k = IsSteady-trans r r' (rest r').0 (rest r').1 h k

  reply-IsSteady :
      (net : Network T) (quorum : ℕ) (o : Outcome (Option Bytes)) (r : Raft T)
      → IsSteady r
          (continue o (handle_reply net quorum) r).0
          (continue o (handle_reply net quorum) r).1
  unfolding handle_reply
  reply-IsSteady net quorum panic r = tt
  reply-IsSteady net quorum (done none) r = refl
  reply-IsSteady net quorum (done (some resp)) r =
      handle_vote-IsSteady quorum (net.vote_response resp) r

  election_round-IsSteady :
      (net : Network T) (clock : ℕ → Instant) (req : ElectionVoteRequest) (quorum i : ℕ)
      (conn : String) (r : Raft T)
      → IsSteady r
          (election_round net clock req quorum i conn r).0
          (election_round net clock req quorum i conn r).1
  unfolding election_round
  election_round-IsSteady net clock req quorum i conn r =
      elim (Bool-cases (ltb r.election_timeout (clock i))) [
        | inl late ↦ rw late tt
        | inr early ↦
            rw early (reply-IsSteady net quorum (send net i (request_vote_rpc req) conn) r)
      ]

  election_loop-IsSteady :
      (net : Network T) (clock : ℕ → Instant) (req : ElectionVoteRequest) (quorum i : ℕ)
      (conns : List String) (r : Raft T)
      → IsSteady r
          (election_loop net clock req quorum i conns r).0
          (election_loop net clock req quorum i conns r).1
  unfolding election_loop
  election_loop-IsSteady net clock req quorum i [] r = refl
  election_loop-IsSteady net clock req quorum i (conn ∷ conns) r =
      let (o, r') = election_round net clock req quorum i conn r in
      IsSteady-then r o r' (election_loop net clock req quorum (suc i) conns)
        (election_round-IsSteady net clock req quorum i conn r)
        (election_loop-IsSteady net clock req quorum (suc i) conns r')

  pub win-voted_for :
      (net : Network T) (clock : ℕ → Instant) (t : Timer) (r : Raft T)
      → (election_section net clock t r).0 ≡ done (some win)
      → (election_section net clock t r).1.voted_for ≡ some r.node_id
  unfolding election_section
  win-voted_for net clock t r e =
      let s = stand t r in
      go (election_loop net clock (vote_request s) (get_quorum_length s) 0 s.connections s) e
        (election_loop-IsSteady net clock (vote_request s) (get_quorum_length s) 0 s.connections s)
    where
      go :
          (x : Outcome (Option After) × Raft T)
          → x.0 ≡ done (some win)
          → IsSteady (stand t r) x.0 x.1
          → x.1.voted_for ≡ some r.node_id
      go (o, r') e h = (rw e at h)
