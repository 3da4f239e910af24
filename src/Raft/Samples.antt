-- ===== src/Raft/Samples.antt =====
-- Nodes and messages on which the tests of the consensus layer run. The entries are numbers.
use quaso.Prelude.{ℕ, true, false, Option, none, some, List, [], ◌∷◌}
use quaso.Raft.Data.{
  NodeRole, follower, leader, LogEntry, VolatileState, State, Shared, Timer, ElectionVoteRequest,
  AppendEntriesRequest,
}
use quaso.Raft.Node.{Raft}

abbrev pub timer : Timer
timer = record { now = 1000; heartbeat_time = 7; election_time = 200 }

abbrev pub entry : ℕ → ℕ → LogEntry ℕ
entry value term = record { value = value; term = term }

abbrev pub log_of_two : List (LogEntry ℕ)
log_of_two = entry 10 1 ∷ entry 20 1 ∷ []

abbrev pub log_of_three : List (LogEntry ℕ)
log_of_three = entry 10 1 ∷ entry 20 1 ∷ entry 30 2 ∷ []

-- Index 3 is next for the node `b`, which is at 1200 milliseconds.
abbrev pub volatile : NodeRole → ℕ → VolatileState
volatile role commit = record {
  node_type = role;
  votes_recieved = [];
  commited_index = commit;
  last_applied = 0;
  next_index = ("b", 3) ∷ [];
  match_index = ("b", 3) ∷ ("c", 0) ∷ ("a", 3) ∷ [];
  heartbeat_timeout = 900;
  election_timeout = 1200;
  persist_timeout = 5000;
}

abbrev pub state_of : NodeRole → ℕ → Option ℕ → ℕ → List (LogEntry ℕ) → State ℕ
state_of role term vote commit log = record {
  persistent_state = record { node_term = term; voted_for = vote; log = log };
  volatile_state = volatile role commit;
  recieved_leader_heartbeat = false;
}

abbrev pub shared_of : State ℕ → Shared ℕ
shared_of s = record { state = s; delivered = [] }

-- A follower with two entries, and a leader of the same term with three.
abbrev pub behind : Shared ℕ
behind = shared_of (state_of follower 2 none 1 log_of_two)

abbrev pub ahead : State ℕ
ahead = state_of leader 2 (some 1) 2 log_of_three

abbrev pub request : ℕ → ℕ → ℕ → List (LogEntry ℕ) → ℕ → AppendEntriesRequest ℕ
request term index prev_term entries commit = record {
  term = term;
  leader_id = 1;
  prev_log_index = index;
  prev_log_term = prev_term;
  entries = entries;
  leader_commit = commit;
}

-- The third entry, for a node with the first two.
abbrev pub third : AppendEntriesRequest ℕ
third = request 2 2 1 (entry 30 2 ∷ []) 2

abbrev pub ask : ℕ → ℕ → ElectionVoteRequest
ask term candidate_id = record {
  term = term;
  candidate_id = candidate_id;
  last_log_index = 3;
  last_log_term = 2;
}

abbrev pub node : State ℕ → Raft ℕ
node s = record {
  node_id = 1;
  connections = "b" ∷ "c" ∷ [];
  listener_addr = "a";
  stopped = false;
  shared = shared_of s;
  is_leader = true;
}
