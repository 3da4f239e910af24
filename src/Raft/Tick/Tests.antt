-- ===== src/Raft/Tick/Tests.antt =====
-- Two rounds of a leader, with a client's command between the heartbeat and the commit.
use quaso.Prelude.{ℕ, refl, none, false, [], ◌∷◌, ◌++◌}
use quaso.Raft.Data.{Shared, set_log}
use quaso.Raft.Append.{on_state}
use quaso.Raft.Client.{Network}
use quaso.Raft.Persist.{Disk}
use quaso.Raft.Tick.{Round, tick}
use quaso.Raft.Tick.AppendOnly.{
  IsExtended, IsExtended-refl, OnlyAppends, IsQuiet, leader_append_only,
}
use quaso.Raft.Samples.{timer, node, ahead, entry}

-- Nobody answers, and the disk is full.
abbrev silence : Network ℕ
silence = record {
  serialize = λ req. none;
  append_response = λ b. none;
  vote_response = λ b. none;
  connect = λ i addr. none;
}

abbrev full : Disk ℕ
full = record {
  serialize = λ p. none;
  deserialize = λ b. none;
  remove = λ f. f;
  opens = false;
  creates = false;
  write = λ b. ([], false);
}

abbrev command : Shared ℕ → Shared ℕ
command s = on_state (set_log (s.log ++ entry 40 2 ∷ [])) s

command-OnlyAppends : OnlyAppends command
command-OnlyAppends s = record {
  term = refl;
  vote = refl;
  role = refl;
  more = entry 40 2 ∷ [];
  log = refl;
}

abbrev round : Round ℕ
round = record {
  disk = full;
  persist_now = 1000;
  persist_later = 1000;
  followers = silence;
  heartbeat_now = timer;
  heartbeat_later = timer;
  order = λ m. m;
  voters = silence;
  candidate_now = 1000;
  clock = λ i. 1000;
  election_timer = timer;
  asleep = λ s. s;
  before_heartbeat = λ s. s;
  before_commit = command;
  before_candidate = λ s. s;
  before_transition = λ s. s;
  before_election = λ s. s;
  before_finish = λ s. s;
  at_end = λ s. s;
}

round-IsQuiet : IsQuiet round
round-IsQuiet = record {
  asleep = IsExtended-refl;
  heartbeat = IsExtended-refl;
  commit = command-OnlyAppends;
  candidate = IsExtended-refl;
  end = IsExtended-refl;
}

leader_append_only_example :
    IsExtended (node ahead).shared (tick (round ∷ round ∷ []) (node ahead, none)).1.0.shared
leader_append_only_example =
    leader_append_only (round ∷ round ∷ []) (node ahead, none) (round-IsQuiet, (round-IsQuiet, tt))
      refl
