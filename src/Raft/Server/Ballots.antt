-- ===== src/Raft/Server/Ballots.antt =====
-- The votes that a listener gives away: in one term, all go to one candidate.
use quaso.Prelude.{
  All, All-map, ◌≤◌, ◌≡◌, refl, sym, ◌∙◌, true, some, List, [], ◌∷◌, ◌++◌, arith, if◌then◌else◌,
  Bool-cases, inl, inr,
}
use quaso.Prelude.Exec.{Outcome, done, panic, pure, continue}
use quaso.Raft.Data.{
  NodeId, NodeTerm, State, Shared, Timer, ElectionVoteRequest, AppendEntriesRequest,
  AppendEntriesResponse, RequestPattern, ping_rpc, append_entries_rpc, request_vote_rpc,
}
use quaso.Raft.Vote.{request_vote}
use quaso.Raft.Append.{append_entries}
use quaso.Raft.Append.Vote.{KeepsVote, append_entries-KeepsVote}
use quaso.Raft.Server.{Response, vote, appended, dispatch}

module _ {T : Type 0} where
  -- A vote: the candidate, and the term that it is for.
  abbrev pub ballot : RequestPattern T → Response → List (NodeId × NodeTerm)
  ballot (request_vote_rpc req) (vote resp) =
      if resp.vote_granted then (req.candidate_id, resp.term) ∷ [] else []
  ballot _ _ = []

  abbrev pub cast :
      Outcome Response → RequestPattern T → List (NodeId × NodeTerm) → List (NodeId × NodeTerm)
  cast panic req rest = []
  cast (done resp) req rest = ballot req resp ++ rest

  -- The votes in the responses to a sequence of requests; a panic ends it.
  unfoldable pub ballots :
      NodeId → List (Timer × RequestPattern T) → Shared T → List (NodeId × NodeTerm)
  ballots node_id [] s = []
  ballots node_id ((t, req) ∷ reqs) s =
      let (o, s') = dispatch node_id t req s in cast o req (ballots node_id reqs s')

  abbrev pub IsCurrent : RequestPattern T → Shared T → Type 0
  IsCurrent (append_entries_rpc req) s = s.node_term ≤ req.term
  IsCurrent _ s = Unit

  -- No entries come from a leader whose term has passed.
  abbrev pub AllCurrent : NodeId → List (Timer × RequestPattern T) → Shared T → Type 0
  AllCurrent node_id [] s = Unit
  AllCurrent node_id ((t, req) ∷ reqs) s =
      IsCurrent req s × AllCurrent node_id reqs (dispatch node_id t req s).1

-- Two votes for the same term are votes for the same candidate.
abbrev pub IsSingleVote : List (NodeId × NodeTerm) → Type 0
IsSingleVote [] = Unit
IsSingleVote (b ∷ bs) = All (λ c. c.1 ≡ b.1 → c.0 ≡ b.0) bs × IsSingleVote bs

-- What a vote says, given the state before it.
pub record IsBound {T : Type 0} (s : State T) (b : NodeId × NodeTerm) : Type 0 where
  pub later : s.node_term ≤ b.1
  pub bound : b.1 ≡ s.node_term → (v : NodeId) → s.voted_for ≡ some v → b.0 ≡ v

module _ {T : Type 0} where
  pub request_vote-KeepsVote :
      (node_id : NodeId) (t : Timer) (req : ElectionVoteRequest) (s : State T)
      → KeepsVote s (request_vote node_id t req s).1
  unfolding request_vote
  request_vote-KeepsVote node_id t req s = record {
    term = ground arith;
    vote = λ e v h. ground arith;
  }

  -- A vote that is given is kept, and respects an earlier one.
  pub record IsCast (s s' : State T) (b : NodeId × NodeTerm) : Type 0 where
    pub before : IsBound s b
    pub term : s'.node_term ≡ b.1
    pub voted : s'.voted_for ≡ some b.0

  pub request_vote-IsCast :
      (node_id : NodeId) (t : Timer) (req : ElectionVoteRequest) (s : State T)
      → (request_vote node_id t req s).0.vote_granted ≡ true
      → IsCast s
          (request_vote node_id t req s).1
          (req.candidate_id, (request_vote node_id t req s).0.term)
  unfolding request_vote
  request_vote-IsCast node_id t req s h = record {
    before = record { later = ground arith; bound = λ e v w. ground arith };
    term = ground arith;
    voted = ground arith;
  }

  pub appended-state :
      (o : Outcome AppendEntriesResponse) (s : Shared T)
      → (continue o (λ resp. pure (appended resp)) s).1 ≡ s
  appended-state panic s = refl
  appended-state (done resp) s = refl

  appended-cast :
      (o : Outcome AppendEntriesResponse) (s : Shared T) (req : AppendEntriesRequest T)
      (rest : List (NodeId × NodeTerm)) (P : NodeId × NodeTerm → Type 0)
      → All P rest
      → All P (cast (continue o (λ resp. pure (appended resp)) s).0 (append_entries_rpc req) rest)
  appended-cast panic s req rest P h = tt
  appended-cast (done resp) s req rest P h = h

  appended-single :
      (o : Outcome AppendEntriesResponse) (s : Shared T) (req : AppendEntriesRequest T)
      (rest : List (NodeId × NodeTerm))
      → IsSingleVote rest
      → IsSingleVote
          (cast (continue o (λ resp. pure (appended resp)) s).0 (append_entries_rpc req) rest)
  appended-single panic s req rest h = tt
  appended-single (done resp) s req rest h = h

  -- What holds of votes after a step holds before it.
  pub IsBound-back :
      {s s' : State T} → KeepsVote s s' → (b : NodeId × NodeTerm) → IsBound s' b → IsBound s b
  IsBound-back {s} {s'} k b h = record {
    later = omega (arith, k.term, h.later);
    bound = λ e v voted.
        let same : s'.node_term ≡ s.node_term = omega (arith, k.term, h.later) in
        h.bound (e ∙ sym same) v (k.vote same v voted);
  }

  pub append-KeepsVote :
      (node_id : NodeId) (t : Timer) (req : AppendEntriesRequest T) (s : Shared T)
      → s.node_term ≤ req.term
      → let (o, s') = append_entries node_id t req s in
        KeepsVote s.state (continue o (λ resp. pure (appended resp)) s').1.state
  append-KeepsVote node_id t req s h =
      let (o, s') = append_entries node_id t req s in
      rw (appended-state o s') (append_entries-KeepsVote node_id t req s h)

  ballots-IsBound :
      (node_id : NodeId) (reqs : List (Timer × RequestPattern T)) (s : Shared T)
      → AllCurrent node_id reqs s
      → All (IsBound s.state) (ballots node_id reqs s)
  unfolding ballots dispatch
  ballots-IsBound node_id [] s h = tt
  ballots-IsBound node_id ((t, ping_rpc req) ∷ reqs) s h = ballots-IsBound node_id reqs s h.1
  ballots-IsBound node_id ((t, append_entries_rpc req) ∷ reqs) s h =
      let (o, s') = append_entries node_id t req s in
      let s'' = (continue o (λ resp. pure (appended resp)) s').1 in
      appended-cast o s' req (ballots node_id reqs s'') (IsBound s.state) (
        All-map (IsBound-back (append-KeepsVote node_id t req s h.0)) _
          (ballots-IsBound node_id reqs s'' h.1))
  ballots-IsBound node_id ((t, request_vote_rpc req) ∷ reqs) s h =
      let (resp, s') = request_vote node_id t req s.state in
      let rest : All (IsBound s.state) (ballots node_id reqs (record s { state = s' })) =
        All-map (IsBound-back (request_vote-KeepsVote node_id t req s.state)) _
          (ballots-IsBound node_id reqs (record s { state = s' }) h.1) in
      elim (Bool-cases resp.vote_granted) [
        | inl granted ↦
            rw granted ((request_vote-IsCast node_id t req s.state granted).before, rest)
        | inr refused ↦ rw refused rest
      ]

  -- Over any sequence of requests to a listener in which no AppendEntries has a term lower than
  -- the node's at that moment, any two votes that are granted for the same term go to the same
  -- candidate.
  pub ballots-IsSingleVote :
      (node_id : NodeId) (reqs : List (Timer × RequestPattern T)) (s : Shared T)
      → AllCurrent node_id reqs s
      → IsSingleVote (ballots node_id reqs s)
  unfolding ballots dispatch
  ballots-IsSingleVote node_id [] s h = tt
  ballots-IsSingleVote node_id ((t, ping_rpc req) ∷ reqs) s h =
      ballots-IsSingleVote node_id reqs s h.1
  ballots-IsSingleVote node_id ((t, append_entries_rpc req) ∷ reqs) s h =
      let (o, s') = append_entries node_id t req s in
      let s'' = (continue o (λ resp. pure (appended resp)) s').1 in
      appended-single o s' req (ballots node_id reqs s'')
        (ballots-IsSingleVote node_id reqs s'' h.1)
  ballots-IsSingleVote node_id ((t, request_vote_rpc req) ∷ reqs) s h =
      let (resp, s') = request_vote node_id t req s.state in
      let rest : IsSingleVote (ballots node_id reqs (record s { state = s' })) =
        ballots-IsSingleVote node_id reqs (record s { state = s' }) h.1 in
      elim (Bool-cases resp.vote_granted) [
        | inr refused ↦ rw refused rest
        | inl granted ↦
            let c : IsCast s.state s' (req.candidate_id, resp.term) =
              request_vote-IsCast node_id t req s.state granted in
            rw granted (
              All-map (λ b k e. k.bound (e ∙ sym c.term) req.candidate_id c.voted) _
                  (ballots-IsBound node_id reqs (record s { state = s' }) h.1),
              rest,
            )
      ]
