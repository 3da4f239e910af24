-- ===== src/Raft/Election/Tests.antt =====
-- An election of a node with two peers, of which the first one grants its vote.
use quaso.Prelude.{
  ℕ, ◌<◌, ◌≤◌, String, length, usize_mod, ◌≡◌, refl, true, none, some, [], ◌∷◌, arith,
}
use quaso.Prelude.Exec.{done}
use quaso.Raft.Data.{candidate, leader, Instant}
use quaso.Raft.Client.{Peer, Network, send}
use quaso.Raft.Append.{is_stale, write_log, append_entries}
use quaso.Raft.Append.Outcome.{Takes}
use quaso.Raft.Node.{Raft, get_quorum_length}
use quaso.Raft.Election.{
  win, stand, election_loop, election_round, election_section, handle_candidate_election,
}
use quaso.Raft.Election.Votes.{HasWon, win-HasWon}
use quaso.Raft.Election.Leader.{LeadsFrom, win-LeadsFrom, overtaken}
use quaso.Raft.Election.Granted.{IsGranted, all_granted_wins}
use quaso.Raft.Election.Lone.{lone_node_never_wins}
use quaso.Raft.Vote.{request_vote}
use quaso.Raft.Vote.Grant.{MayVote}
use quaso.Raft.Node.{transition_wrapper}
use quaso.Raft.Election.{vote_request, maybe_transition_candidate}
use quaso.Prelude.{inl}
use quaso.Raft.Election.Twice.{handles, asked, stands_after_voting}
use quaso.Raft.Samples.{ask, timer, node, entry, request, state_of, log_of_two}

abbrev peer : Peer
peer = record { takes = λ b. true; answer = λ b. some (1 ∷ []) }

-- Every answer is a granted vote of node 2.
abbrev network : Network ℕ
network = record {
  serialize = λ req. some (0 ∷ []);
  append_response = λ b. none;
  vote_response = λ b. some (record { node_id = 2; term = 3; vote_granted = true });
  connect = λ i addr. some peer;
}

abbrev clock : ℕ → Instant
clock i = 1100

abbrev standing : Raft ℕ
standing = node (state_of candidate 3 none 1 log_of_two)

abbrev elected : Raft ℕ
elected = (election_section network clock timer standing).1

wins : election_section network clock timer standing ≡ (done (some win), elected)
unfolding election_section election_loop election_round send get_quorum_length
wins = refl

win-HasWon_example : HasWon network clock timer standing elected
win-HasWon_example = win-HasWon network clock timer standing elected wins

win-LeadsFrom_example : LeadsFrom network clock timer standing elected wins 3 "c"
win-LeadsFrom_example =
    win-LeadsFrom network clock timer standing elected wins "c" refl (omega arith) (omega arith)

elected_small : length elected.log < usize_mod
unfolding election_section election_loop election_round send get_quorum_length
elected_small = omega arith

late : Takes (request 5 2 1 [] 0) elected.state
unfolding election_section election_loop election_round send get_quorum_length is_stale write_log
late = record {
  fresh = refl;
  place = (1, entry 20 1, refl, refl, refl);
  commit = λ h. absurd (omega arith);
}

overtaken_example :
    let after =
      (handle_candidate_election network clock timer
        (λ s. (append_entries 1 timer (request 5 2 1 [] 0) s).1)
        standing).1 in
    (after.node_type ≡ leader) × (after.node_term ≡ 5) × (after.voted_for ≡ some 1)
overtaken_example =
    overtaken network clock timer standing elected wins timer (request 5 2 1 [] 0) elected_small
      late (omega arith) (omega arith)

abbrev alone : Raft ℕ
alone = record standing { connections = [] }

lone_candidate :
    (handle_candidate_election network clock timer (λ s. s) alone ≡ (done tt, stand timer alone))
    × ((stand timer alone).node_type ≡ candidate)
    × ((stand timer alone).node_term ≡ 3)
lone_candidate = lone_node_never_wins network clock timer (λ s. s) alone refl

-- Node 9 asks for a vote in term 4, which node 1 has just gone to.
four-MayVote : MayVote (ask 4 9) (transition_wrapper candidate 1 standing).state
unfolding transition_wrapper
four-MayVote = record {
  not_behind = omega arith;
  free = λ e. inl refl;
  up_to_date = inl (omega arith);
}

grants : (i : ℕ) (conn : String) → IsGranted network (vote_request (stand timer standing)) i conn
unfolding send
grants i conn = record {
  bytes = _;
  response = record { node_id = 2; term = 3; vote_granted = true };
  sent = refl;
  read = refl;
  granted = refl;
}

in_time : (i : ℕ) → clock i ≤ (stand timer standing).election_timeout
unfolding stand
in_time i = omega arith

all_granted_wins_example : (election_section network clock timer standing).0 ≡ done (some win)
all_granted_wins_example =
    all_granted_wins network clock timer standing (omega arith) (λ i conn _. grants i conn) in_time

-- Both peers grant it their votes after it has granted one.
asked_grants :
    (i : ℕ) (conn : String)
    → IsGranted network (vote_request (stand timer (asked timer (ask 4 9) standing))) i conn
unfolding send
asked_grants i conn = record {
  bytes = _;
  response = record { node_id = 2; term = 3; vote_granted = true };
  sent = refl;
  read = refl;
  granted = refl;
}

asked_in_time : (i : ℕ) → clock i ≤ (stand timer (asked timer (ask 4 9) standing)).election_timeout
unfolding stand transition_wrapper request_vote
asked_in_time i = omega arith

stands_after_voting_example :
    let granted = request_vote 1 timer (ask 4 9) (transition_wrapper candidate 1 standing).state in
    let after =
      (maybe_transition_candidate network 1300 clock timer
        (λ s. s)
        (handles 1 timer (ask 4 9))
        (λ s. s)
        standing).1 in
    (granted.0.vote_granted ≡ true)
    × (granted.1.voted_for ≡ some 9)
    × (after.node_type ≡ leader)
    × (after.node_term ≡ 4)
unfolding transition_wrapper
stands_after_voting_example =
    stands_after_voting network clock timer standing timer 1300 (ask 4 9) (λ e. cc) (omega arith)
      refl four-MayVote refl (omega arith) (λ i conn _. asked_grants i conn) asked_in_time
