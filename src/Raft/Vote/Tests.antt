-- ===== src/Raft/Vote/Tests.antt =====
-- `request_vote` on a few nodes.
use quaso.Prelude.{◌≡◌, ◌⊎◌, refl, true, false, arith, inl}
use quaso.Raft.Vote.{request_vote, vote_response}
use quaso.Raft.Vote.Grant.{MayVote, HasVoted, grant_iff_MayVote, votes_or_stays}
use quaso.Raft.Samples.{timer, ask, behind}

may_vote : MayVote (ask 2 3) behind.state
may_vote = record { not_behind = omega arith; free = λ e. inl refl; up_to_date = inl (omega arith) }

grant_iff_MayVote_example : (request_vote 7 timer (ask 2 3) behind.state).0.vote_granted ≡ true
grant_iff_MayVote_example = (grant_iff_MayVote 7 timer (ask 2 3) behind.state).1 may_vote

votes_or_stays_example :
    let answered = request_vote 7 timer (ask 2 3) behind.state in
    (HasVoted (ask 2 3) behind.state answered.1 × (answered.0 ≡ vote_response 7 true answered.1))
    ⊎ (answered ≡ (vote_response 7 false behind.state, behind.state))
votes_or_stays_example = votes_or_stays 7 timer (ask 2 3) behind.state

-- A second candidate in the same term.
one_vote :
    (request_vote 7 timer (ask 2 4) (request_vote 7 timer (ask 2 3) behind.state).1).0.vote_granted
    ≡ false
unfolding request_vote
one_vote = refl
