-- ===== src/Raft/Cluster/Listening/Tests.antt =====
-- Node 1 of three wins term 3 with the vote that the listener of node 2 answers; node 3 refuses the
-- connection.
use quaso.Prelude.{
  ℕ, ◌≡◌, refl, String, true, none, some, [], ◌∷◌, arith, ◌==◌, if◌then◌else◌, str_eq, Bool-cases,
  inl, inr,
}
use quaso.Prelude.Exec.{done}
use quaso.Raft.Data.{NodeId, Instant, follower, RequestPattern, request_vote_rpc}
use quaso.Raft.Vote.{request_vote}
use quaso.Raft.Client.{Peer, Network, send, send_bytes}
use quaso.Raft.Node.{Raft, get_quorum_length, transition_wrapper}
use quaso.Raft.Election.{win, vote_request, election_loop, election_round, election_section}
use quaso.Raft.Server.{dispatch, serve}
use quaso.Raft.Tick.AppendOnly.{IsExtended-refl}
use quaso.Raft.History.{campaigns, receives, here, next, standing}
use quaso.Raft.Broadcast.{Codec, reply}
use quaso.Raft.Broadcast.Sample.{numbers, codec_of, codec_of-IsCodec}
use quaso.Raft.Cluster.{Life}
use quaso.Raft.Cluster.Listening.{IsAnswer, refused, served, Elected, one_winner_per_term}
use quaso.Raft.Samples.{timer, node, state_of, log_of_two}

abbrev codec : Codec ℕ
codec = codec_of numbers

abbrev first : Raft ℕ
first = node (state_of follower 2 none 1 log_of_two)

abbrev second : Raft ℕ
second = record first { node_id = 2; listener_addr = "b"; connections = "a" ∷ "c" ∷ [] }

abbrev peer : Peer
peer = record {
  takes = λ b. true;
  answer = λ b. some (reply codec (serve codec.decode 2 timer b second.shared).0);
}

abbrev network : Network ℕ
network = record {
  serialize = λ req. some (codec.encode req);
  append_response = codec.append_response;
  vote_response = codec.vote_response;
  connect = λ i addr. if str_eq addr "b" then some peer else none;
}

abbrev clock : ℕ → Instant
clock i = 1100

abbrev request : RequestPattern ℕ
request = request_vote_rpc (vote_request (standing (λ s. s) first))

abbrev first_life : Life ℕ
first_life = record {
  start = first;
  ballots = _;
  end = _;
  history = next (campaigns first network clock timer (λ s. s) (omega arith) IsExtended-refl) here;
}

abbrev second_life : Life ℕ
second_life = record {
  start = second;
  ballots = _;
  end = _;
  history = next (receives second timer request tt) here;
}

abbrev quiet_life : Life ℕ
quiet_life = record { start = first; ballots = []; end = first; history = here }

abbrev life : NodeId → Life ℕ
life v = if v == 1 then first_life else if v == 2 then second_life else quiet_life

abbrev id_of : String → NodeId
id_of addr = if str_eq addr "b" then 2 else 3

wins : (election_section network clock timer (standing (λ s. s) first)).0 ≡ done (some win)
unfolding transition_wrapper election_section election_loop election_round send get_quorum_length
    send_bytes serve dispatch request_vote vote_request
wins = refl

answers :
    (i : ℕ) (conn : String)
    → IsAnswer codec (id_of conn) (life (id_of conn)) request (network.connect i conn)
answers i conn = elim (Bool-cases (str_eq conn "b")) [
  | inr other ↦ rw other refused
  | inl same ↦ rw same (
      served peer second timer tt refl
        (record { earlier = []; later = []; before = here; after = here; whole = refl }) refl)
]

first-Elected : Elected codec (1 ∷ 2 ∷ 3 ∷ []) life first
first-Elected = record {
  net = network;
  clock = clock;
  timer = timer;
  gap = λ s. s;
  word = omega arith;
  quiet = IsExtended-refl;
  passes = record { earlier = []; later = []; before = here; after = here; whole = refl };
  won = wins;
  id_of = id_of;
  listening = record { serialize = refl; response = λ b. refl; connect = answers };
  distinct = (λ i. ground arith, (λ i. ground arith, (λ i. i, tt)));
  known = λ v i. i;
  size = refl;
}

one_winner_per_term_example : first.node_id ≡ first.node_id
one_winner_per_term_example =
    one_winner_per_term codec (codec_of-IsCodec numbers) (1 ∷ 2 ∷ 3 ∷ []) life first first
      first-Elected first-Elected refl
