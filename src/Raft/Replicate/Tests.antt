-- ===== src/Raft/Replicate/Tests.antt =====
-- Heartbeats to a follower that lacks one entry, and to one that lacks two.
use quaso.Prelude.{ℕ, ◌≡◌, refl, true, arith, none, take}
use quaso.HashMap as Map
use quaso.Prelude.Exec.{done}
use quaso.Raft.Data.{AppendEntriesRequest, Shared, follower}
use quaso.Raft.Append.{append_entries}
use quaso.Raft.Heartbeat.{append_request}
use quaso.Raft.Replicate.{IsPrefixKnown, append_entries-append_request}
use quaso.Raft.Replicate.CatchUp.{exchanges, IsBehind, IsCaughtUp, exchanges-IsCaughtUp}
use quaso.Raft.Samples.{shared_of, state_of, timer, ahead, behind, third, log_of_three}

in_step : IsPrefixKnown ahead behind "b" 2
unfolding Map.get
in_step = record {
  some_entries = omega arith;
  word = omega arith;
  known = refl;
  within = omega arith;
  prefix = refl;
  not_ahead = omega arith;
  commit = omega arith;
}

append_entries-append_request_example :
    (req : AppendEntriesRequest ℕ) × (append_request 1 "b" ahead ≡ done req)
    × ((append_entries 7 timer req behind).0
        ≡ done (record { node_id = 7; term = 2; success = true }))
    × ((append_entries 7 timer req behind).1.log ≡ log_of_three)
    × ((append_entries 7 timer req behind).1.node_term ≡ 2)
    × ((append_entries 7 timer req behind).1.commited_index ≡ 2)
append_entries-append_request_example =
    append_entries-append_request ahead behind "b" 2 1 7 timer in_step

append_request-third : append_request 1 "b" ahead ≡ done third
unfolding append_request Map.get
append_request-third = refl

abbrev far_behind : Shared ℕ
far_behind = shared_of (state_of follower 1 none 0 (take 1 log_of_three))

two_lacking : IsBehind 1 7 "b" 1 2 ahead far_behind
unfolding Map.get
two_lacking = record {
  some_entries = omega arith;
  word = omega arith;
  known = refl;
  past = omega arith;
  within = omega arith;
  prefix = refl;
  not_ahead = omega arith;
  commit = omega arith;
}

-- One refusal, and one request that is taken.
exchanges-IsCaughtUp_example :
    IsCaughtUp 1 7 "b" log_of_three 2 (exchanges 1 7 "b" (λ i. timer) 2 (ahead, far_behind))
exchanges-IsCaughtUp_example =
    exchanges-IsCaughtUp 1 7 "b" (λ i. timer) 1 2 ahead far_behind two_lacking
