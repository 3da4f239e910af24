-- ===== src/Raft/Vote/Grant.antt =====
-- When a vote is granted, and what the handler changes.
use quaso.Prelude.{
  ◌≤◌, ◌<◌, ◌≡◌, ◌⊎◌, ◌↔◌, true, false, inl, inr, Bool-cases, Option, none, some, arith, length,
  last?,
}
use quaso.Raft.Data.{NodeId, follower, LogEntry, State, Timer, ElectionVoteRequest}
use quaso.Raft.Vote.{request_vote, vote_response}

-- Raft's order on logs, for a voter with entries: a later last term, or the same last term and a
-- log at least as long. A voter without entries wants not to have voted at all.
abbrev pub IsUpToDate : {T : Type 0} → Option (LogEntry T) → ElectionVoteRequest → State T → Type 0
IsUpToDate none req s = s.voted_for ≡ none
IsUpToDate (some e) req s =
    (e.term < req.last_log_term)
    ⊎ (e.term ≡ req.last_log_term) × (length s.log ≤ req.last_log_index)

pub record MayVote {T : Type 0} (req : ElectionVoteRequest) (s : State T) : Type 0 where
  pub not_behind : s.node_term ≤ req.term
  pub free : req.term ≡ s.node_term → (s.voted_for ≡ none) ⊎ (s.voted_for ≡ some req.candidate_id)
  pub up_to_date : IsUpToDate (last? s.log) req s

-- What the voter keeps of a vote.
pub record HasVoted {T : Type 0} (req : ElectionVoteRequest) (s s' : State T) : Type 0 where
  pub voted : s'.voted_for ≡ some req.candidate_id
  pub term : s'.node_term ≡ req.term
  pub role : s'.node_type ≡ follower
  pub heard : s'.recieved_leader_heartbeat ≡ true
  pub same_log : s'.log ≡ s.log
  pub same_commit : s'.commited_index ≡ s.commited_index

module _ {T : Type 0} (node_id : NodeId) (t : Timer) (req : ElectionVoteRequest) (s : State T) where
  -- A vote is granted exactly if the candidate's term is not behind the voter's, the voter has
  -- no vote for another candidate in that same term, and the candidate's log is up to date; a
  -- voter with an empty log asks that it has not voted at all instead.
  pub grant_iff_MayVote : ((request_vote node_id t req s).0.vote_granted ≡ true) ↔ MayVote req s
  unfolding request_vote
  grant_iff_MayVote = (λ h. ground arith, λ h. ground (arith, h.free, h.up_to_date))

  -- If the vote is not granted, the answer has the voter's term and the voter's state stays as
  -- it is.
  refuse_vote_unchanged :
      (request_vote node_id t req s).0.vote_granted ≡ false
      → request_vote node_id t req s ≡ (vote_response node_id false s, s)
  unfolding request_vote
  refuse_vote_unchanged h = ground arith

  grant-response :
      (request_vote node_id t req s).0.vote_granted ≡ true
      → (request_vote node_id t req s).0
        ≡ vote_response node_id true (request_vote node_id t req s).1
  unfolding request_vote
  grant-response h = ground arith

  -- If the vote is granted, the voter becomes a follower in the candidate's term with its vote
  -- recorded and the heartbeat flag up, and its log and commit index stay.
  pub grant-HasVoted :
      (request_vote node_id t req s).0.vote_granted ≡ true
      → HasVoted req s (request_vote node_id t req s).1
  unfolding request_vote
  grant-HasVoted h = ground arith

  -- The handler either grants the vote, and then the voter is a follower in the candidate's
  -- term with its vote recorded, the heartbeat flag up and its log and commit index as before,
  -- and the answer has its new term; or it refuses, and then the state stays as it is and the
  -- answer has the voter's term.
  pub votes_or_stays :
      let answered = request_vote node_id t req s in
      (HasVoted req s answered.1 × (answered.0 ≡ vote_response node_id true answered.1))
      ⊎ (answered ≡ (vote_response node_id false s, s))
  votes_or_stays = elim (Bool-cases (request_vote node_id t req s).0.vote_granted) [
    | inl granted ↦ inl (grant-HasVoted granted, grant-response granted)
    | inr refused ↦ inr (refuse_vote_unchanged refused)
  ]
