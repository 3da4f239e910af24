-- ===== src/Raft/Server/Tests.antt =====
-- The listener on a few requests.
use quaso.Prelude.{ℕ, ◌≡◌, refl, true, some, List, [], ◌∷◌, arith, inl}
use quaso.Raft.Data.{follower, Shared, Timer, RequestPattern, append_entries_rpc, request_vote_rpc}
use quaso.Raft.Vote.{request_vote}
use quaso.Raft.Append.{append_entries, follow_commit}
use quaso.Raft.Server.{dispatch}
use quaso.Raft.Server.Ballots.{AllCurrent, IsSingleVote, ballots, ballots-IsSingleVote}
use quaso.Raft.Server.DoubleVote.{votes_again}
use quaso.Raft.Samples.{timer, entry, ask, request, behind, shared_of, state_of, log_of_two}

-- Two candidates of term 3, and a leader of that term in between.
abbrev requests : List (Timer × RequestPattern ℕ)
requests =
    (timer, request_vote_rpc (ask 3 4))
    ∷ (timer, append_entries_rpc (request 3 2 1 [] 1))
    ∷ (timer, request_vote_rpc (ask 3 5))
    ∷ (timer, request_vote_rpc (ask 4 5))
    ∷ []

two_ballots : ballots 7 requests behind ≡ (4, 3) ∷ (5, 4) ∷ []
unfolding ballots dispatch request_vote append_entries follow_commit
two_ballots = refl

all_current : AllCurrent 7 requests behind
unfolding dispatch request_vote append_entries follow_commit
all_current = (tt, (omega arith, (tt, (tt, tt))))

ballots-IsSingleVote_example : IsSingleVote (ballots 7 requests behind)
ballots-IsSingleVote_example = ballots-IsSingleVote 7 requests behind all_current

-- It voted for 4 in term 2, and then votes for 5.
abbrev voted : Shared ℕ
voted = shared_of (state_of follower 2 (some 4) 1 log_of_two)

votes_again_example :
    let after = (append_entries 7 timer (request 1 2 1 [] 0) voted).1.state in
    ((request_vote 7 timer (ask 2 5) after).0.vote_granted ≡ true)
    × ((request_vote 7 timer (ask 2 5) after).1.voted_for ≡ some 5)
    × ((request_vote 7 timer (ask 2 5) after).1.node_term ≡ 2)
unfolding append_entries follow_commit
votes_again_example =
    votes_again 7 timer timer (request 1 2 1 [] 0) (ask 2 5) voted (entry 20 1) (omega arith)
      (λ e. cc) (omega arith) (1, entry 20 1, refl, refl, refl) (λ h. absurd (omega arith)) refl
      refl (inl (omega arith))
