-- ===== src/Raft/Cluster/Tests.antt =====
-- Node 1 of three wins term 3 with the vote of node 2; node 3 does not answer.
use quaso.Prelude.{
  In, ℕ, ◌≡◌, refl, ◌∙◌, String, true, none, some, [], ◌∷◌, arith, ◌==◌, if◌then◌else◌, str_eq,
  Bool-cases, inl, inr,
}
use quaso.Prelude.Exec.{done}
use quaso.Raft.Data.{NodeId, Instant, follower, RequestPattern, request_vote_rpc}
use quaso.Raft.Vote.{request_vote}
use quaso.Raft.Client.{Peer, Network, send}
use quaso.Raft.Node.{Raft, get_quorum_length, transition_wrapper}
use quaso.Raft.Election.{win, vote_request, election_loop, election_round, election_section}
use quaso.Raft.Election.Votes.{vote_in}
use quaso.Raft.Server.{dispatch}
use quaso.Raft.Tick.AppendOnly.{IsExtended-refl}
use quaso.Raft.History.{campaigns, receives, here, next, standing}
use quaso.Raft.History.SingleVote.{History-IsSingleVote}
use quaso.Raft.Server.Ballots.{IsSingleVote}
use quaso.Raft.Cluster.{Life}
use quaso.Raft.Cluster.Victory.{Victory, IsHonest, one_leader_per_term}
use quaso.Raft.Samples.{timer, node, state_of, log_of_two}

abbrev peer : Peer
peer = record { takes = λ b. true; answer = λ b. some (1 ∷ []) }

abbrev network : Network ℕ
network = record {
  serialize = λ req. some (0 ∷ []);
  append_response = λ b. none;
  vote_response = λ b. some (record { node_id = 2; term = 3; vote_granted = true });
  connect = λ i addr. if str_eq addr "b" then some peer else none;
}

abbrev clock : ℕ → Instant
clock i = 1100

abbrev first : Raft ℕ
first = node (state_of follower 2 none 1 log_of_two)

abbrev second : Raft ℕ
second = record first { node_id = 2; listener_addr = "b"; connections = "a" ∷ "c" ∷ [] }

abbrev stands : Raft ℕ
stands = standing (λ s. s) first

abbrev request : RequestPattern ℕ
request = request_vote_rpc (vote_request stands)

abbrev first_life : Life ℕ
first_life = record {
  start = first;
  ballots = _;
  end = _;
  history = next (campaigns first network clock timer (λ s. s) (omega arith) IsExtended-refl) here;
}

abbrev second_life : Life ℕ
second_life = record {
  start = second;
  ballots = _;
  end = _;
  history = next (receives second timer request tt) here;
}

-- Node 2 is asked again in that term, by another candidate.
abbrev asked_twice : Life ℕ
asked_twice = record {
  start = second;
  ballots = _;
  end = _;
  history = next (receives second timer request tt) (
      next
        (receives (record second { shared = (dispatch 2 timer request second.shared).1 }) timer
          (request_vote_rpc (record (vote_request stands) { candidate_id = 3 })) tt)
        here);
}

History-IsSingleVote_example : IsSingleVote asked_twice.ballots
History-IsSingleVote_example = History-IsSingleVote asked_twice.history

abbrev quiet_life : Life ℕ
quiet_life = record { start = first; ballots = []; end = first; history = here }

abbrev life : NodeId → Life ℕ
life v = if v == 1 then first_life else if v == 2 then second_life else quiet_life

abbrev id_of : String → NodeId
id_of addr = if str_eq addr "b" then 2 else 3

wins :
    election_section network clock timer stands
    ≡ (done (some win), (election_section network clock timer stands).1)
unfolding transition_wrapper election_section election_loop election_round send get_quorum_length
wins = refl

first_ballot : In (1, 3) (life 1).ballots
unfolding transition_wrapper election_section election_loop election_round send get_quorum_length
first_ballot = inl refl

second_ballot : In (1, 3) (life 2).ballots
unfolding transition_wrapper dispatch request_vote vote_request
second_ballot = inl refl

-- Only the address "b" answers.
only_second :
    (i : ℕ) (conn : String) (v : NodeId)
    → In v (vote_in network (send network i (request_vote_rpc (vote_request stands)) conn))
    → (str_eq conn "b" ≡ true) × (v ≡ 2)
unfolding send
only_second i conn v h = elim (Bool-cases (str_eq conn "b")) [
  | inr other ↦ absurd (rw other at h)
  | inl same ↦ elim (rw same at h) [ inl e ↦ (same, e) | inr nobody ↦ absurd nobody ]
]

network-IsHonest : IsHonest network id_of life (vote_request stands)
unfolding transition_wrapper vote_request
network-IsHonest = record {
  named = λ i conn v h. let (same, e) = only_second i conn v h in e ∙ rw same;
  given = λ i conn v h. let (same, e) = only_second i conn v h in rw e second_ballot;
}

stands-Victory : Victory (1 ∷ 2 ∷ 3 ∷ []) life stands
unfolding transition_wrapper
stands-Victory = record {
  net = network;
  clock = clock;
  timer = timer;
  after = _;
  won = wins;
  id_of = id_of;
  honest = network-IsHonest;
  own = first_ballot;
  distinct = (λ i. ground arith, (λ i. ground arith, (λ i. i, tt)));
  known = λ v i. i;
  size = refl;
}

same_winner : stands.node_id ≡ stands.node_id
same_winner =
    one_leader_per_term (1 ∷ 2 ∷ 3 ∷ []) life stands stands stands-Victory stands-Victory refl
