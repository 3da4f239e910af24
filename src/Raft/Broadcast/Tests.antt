-- ===== src/Raft/Broadcast/Tests.antt =====
-- Three nodes: the leader `a` has three entries, `b` lacks one of them and `c` two.
use mathlib.Core.List.Perm
use quaso.Prelude.{
  true, some, ℕ, ◌≡◌, refl, String, none, List, [], ◌∷◌, arith, if◌then◌else◌, str_eq, take, All,
  ◌≤◌, In, inl, inr,
}
use quaso.Prelude.Exec.{done}
use quaso.HashMap as Map
use quaso.Raft.Data.{Instant, candidate, LogIndex, follower, Shared, Timer}
use quaso.Raft.Node.{get_quorum_length, Raft}
use quaso.Raft.Commit.Quorum.{IsOrder}
use quaso.Raft.Broadcast.{Peers}
use quaso.Raft.Broadcast.Ready.{IsReady}
use quaso.Raft.Broadcast.Sample.{numbers, three_addresses, three_keys, codec_of, codec_of-IsCodec}
use quaso.Raft.Broadcast.Spread.{HasAll, Times, two_beats, log_reaches_all}
use quaso.Raft.Broadcast.Won.{HaveLog, AllHave, win_reaches_all}
use quaso.Raft.Election.{
  win, election_section, election_loop, election_round, handle_candidate_election,
}
use quaso.Raft.Client.{Network, send}
use quaso.Raft.Samples.{log_of_two, timer, node, ahead, behind, shared_of, state_of, log_of_three}

abbrev far_behind : Shared ℕ
far_behind = shared_of (state_of follower 1 none 0 (take 1 log_of_three))

-- Index 2 is next for the node `c`.
abbrev start : Raft ℕ
start = node (record ahead {
  volatile_state = record ahead.volatile_state { next_index = ("b", 3) ∷ ("c", 2) ∷ [] };
})

abbrev peers : Peers ℕ
peers = record {
  id_of = λ addr. if str_eq addr "b" then 2 else 3;
  time = λ addr. timer;
  at = λ addr. if str_eq addr "b" then behind else far_behind;
}

-- The number of entries that each has.
abbrev has : String → ℕ
has addr = if str_eq addr "b" then 2 else 1

abbrev later : Timer
later = record { now = 2000; heartbeat_time = 7; election_time = 200 }

start-IsReady : IsReady start peers has
unfolding Map.get
start-IsReady = record {
  role = refl;
  some_entries = omega arith;
  word = omega arith;
  distinct = three_addresses;
  keyed = three_keys;
  inside = λ a i. elim i [
    | inl e ↦ inr (inl e)
    | inr j ↦ elim j [
      | inl e ↦ inr (inr (inl e))
      | inr l ↦ elim l [ inl e ↦ inl e | inr nobody ↦ absurd nobody ]
    ]
  ];
  known = λ c i. elim i [
    | inl e ↦ rw e (record {
      some_entries = omega arith;
      word = omega arith;
      known = refl;
      within = omega arith;
      prefix = refl;
      not_ahead = omega arith;
      commit = omega arith;
    })
    | inr j ↦ elim j [
      | inl e ↦ rw e (record {
        some_entries = omega arith;
        word = omega arith;
        known = refl;
        within = omega arith;
        prefix = refl;
        not_ahead = omega arith;
        commit = omega arith;
      })
      | inr nobody ↦ absurd nobody
    ]
  ];
}

commits_inside : (c : String) → In c start.connections → (peers.at c).commited_index ≤ 3
commits_inside c (inl e) = rw e (omega arith)
commits_inside c (inr (inl e)) = rw e (omega arith)
commits_inside c (inr (inr nobody)) = absurd nobody

abbrev as_it_is : List (LogIndex × ℕ) → List (LogIndex × ℕ)
as_it_is m = m

as_it_is-IsOrder : IsOrder as_it_is
as_it_is-IsOrder m = Perm.refl m

abbrev times : Times
times = record {
  sent = timer;
  set = timer;
  sent_again = later;
  set_again = later;
  heard_again = λ addr. timer;
}

log_reaches_all_example :
    let beats = two_beats (codec_of numbers) as_it_is times peers start in
    (beats.first ≡ done tt)
    × (beats.second ≡ done tt)
    × HasAll log_of_three start.shared beats.raft.shared
    × All (λ c. HasAll log_of_three (peers.at c) (beats.peers.at c)) start.connections
log_reaches_all_example =
    log_reaches_all (codec_of numbers) as_it_is (codec_of-IsCodec numbers) as_it_is-IsOrder peers
      has start times start-IsReady (omega arith) commits_inside (omega arith) (omega arith)

-- A candidate that wins with the vote of any other node; both have its log.
abbrev voters : Network ℕ
voters = record {
  serialize = λ req. some (0 ∷ []);
  append_response = λ b. none;
  vote_response = λ b. some (record { node_id = 2; term = 3; vote_granted = true });
  connect = λ i addr. some (record { takes = λ b. true; answer = λ b. some (1 ∷ []) });
}

abbrev clock : ℕ → Instant
clock i = 1100

abbrev stands : Raft ℕ
stands = node (state_of candidate 3 none 1 log_of_two)

abbrev elected : Raft ℕ
elected = (election_section voters clock timer stands).1

wins : election_section voters clock timer stands ≡ (done (some win), elected)
unfolding election_section election_loop election_round send get_quorum_length
wins = refl

abbrev equals : Peers ℕ
equals = record {
  id_of = λ addr. if str_eq addr "b" then 2 else 3;
  time = λ addr. timer;
  at = λ addr. behind;
}

stands-HaveLog : HaveLog stands equals
stands-HaveLog = record { log = λ c i. refl; term = λ c i. omega arith }

heartbeat_due :
    (handle_candidate_election voters clock timer (λ s. s) stands).1.heartbeat_timeout ≤ 1000
unfolding handle_candidate_election election_section election_loop election_round send
    get_quorum_length
heartbeat_due = omega arith

win_reaches_all_example :
    AllHave
      (codec_of numbers)
      as_it_is
      times
      equals
      (handle_candidate_election voters clock timer (λ s. s) stands).1
      log_of_two
      stands.connections
win_reaches_all_example =
    win_reaches_all (codec_of numbers) as_it_is (codec_of-IsCodec numbers) as_it_is-IsOrder times
      equals voters clock timer stands elected wins stands-HaveLog (omega arith) (omega arith)
      (omega arith) (omega arith) three_addresses (λ c i. omega arith) heartbeat_due (omega arith)
