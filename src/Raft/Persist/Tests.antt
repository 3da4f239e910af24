-- ===== src/Raft/Persist/Tests.antt =====
-- A file of numbers: the term, the vote and the entries of a state, one after another.
use quaso.Prelude.{
  ℕ, zero, suc, ◌≡◌, refl, ap, true, Option, none, some, List, [], ◌∷◌, ◌++◌, ◌<◌, length, arith,
  inl, inr,
}
use quaso.Prelude.Exec.{done, panic}
use quaso.Raft.Data.{NodeId, LogEntry, PersistentState, AppendEntriesRequest, follower}
use quaso.Raft.Client.{Bytes}
use quaso.Raft.Node.{Raft, new_from_config}
use quaso.Raft.Vote.{request_vote}
use quaso.Raft.Vote.Grant.{MayVote}
use quaso.Raft.Append.{is_stale, write_log, append_entries, follow_commit}
use quaso.Raft.Append.Outcome.{Takes}
use quaso.Raft.Persist.{Disk, init_state, persist, try_persist_state}
use quaso.Raft.Persist.Restart.{
  IsReliable, kept, after_vote, persist_round_trip, persist_panic, restart_votes_again, started,
  restart_redelivers,
}
use quaso.Raft.Persist.Truncated.{truncated_panics}
use quaso.Raft.Samples.{timer, node, state_of, request, entry, log_of_two, log_of_three, ask}

abbrev put_log : List (LogEntry ℕ) → Bytes
put_log [] = []
put_log (e ∷ log) = e.value ∷ e.term ∷ put_log log

abbrev take_log : Bytes → List (LogEntry ℕ)
take_log (v ∷ t ∷ b) = entry v t ∷ take_log b
take_log _ = []

abbrev put_vote : Option NodeId → ℕ
put_vote none = 0
put_vote (some v) = suc v

abbrev take_vote : ℕ → Option NodeId
take_vote zero = none
take_vote (suc v) = some v

abbrev take_state : Bytes → Option (PersistentState ℕ)
take_state (t ∷ v ∷ b) = some (record { node_term = t; voted_for = take_vote v; log = take_log b })
take_state _ = none

abbrev disk : Disk ℕ
disk = record {
  serialize = λ p. some (p.node_term ∷ put_vote p.voted_for ∷ put_log p.log);
  deserialize = take_state;
  remove = λ f. none;
  opens = true;
  creates = true;
  write = λ b. (b, true);
}

take-put_log : (log : List (LogEntry ℕ)) → take_log (put_log log) ≡ log
take-put_log [] = refl
take-put_log (e ∷ log) = ap (λ l. e ∷ l) (take-put_log log)

take-put_vote : (v : Option NodeId) → take_vote (put_vote v) ≡ v
take-put_vote none = refl
take-put_vote (some v) = refl

disk-IsReliable : IsReliable disk
disk-IsReliable = record {
  opens = refl;
  creates = refl;
  writes = λ b. refl;
  codec = λ p. (_, refl, rw (take-put_vote p.voted_for, take-put_log p.log));
}

abbrev stored : PersistentState ℕ
stored = record { node_term = 2; voted_for = none; log = log_of_three }

persist_round_trip_example :
    ((persist disk 2 stored none).0 ≡ done tt)
    × (init_state disk (persist disk 2 stored none).1
        ≡ (done (kept 2 stored), (persist disk 2 stored none).1))
persist_round_trip_example = persist_round_trip disk disk-IsReliable 2 stored none (omega arith)

persist_panic_example : (persist disk 4 stored none).0 ≡ panic
persist_panic_example = (persist_panic disk disk-IsReliable 4 stored none).1 (omega arith)

may_vote : (other : NodeId) → MayVote (ask 3 other) (new_from_config timer 7 [] "a" stored).state
unfolding new_from_config
may_vote other = record {
  not_behind = omega arith;
  free = λ e. inl refl;
  up_to_date = inr (refl, omega arith);
}

abbrev bytes : Bytes
bytes = 2 ∷ 0 ∷ put_log log_of_three

abbrev voted : Raft ℕ
voted = after_vote 7 timer [] "a" stored (ask 3 4)

restart_votes_again_example :
    ((request_vote 7 timer (ask 3 4) (new_from_config timer 7 [] "a" stored).state).0.vote_granted
      ≡ true)
    × (try_persist_state disk 2000 2000 (voted, some bytes) ≡ (done tt, (voted, some bytes)))
    × (init_state disk (some bytes) ≡ (done stored, some bytes))
    × ((request_vote 7 timer (ask 3 5) (new_from_config timer 7 [] "a" stored).state).0.vote_granted
        ≡ true)
restart_votes_again_example =
    restart_votes_again disk 7 timer timer [] "a" stored bytes 2000 2000 (ask 3 4) (ask 3 5) refl
      refl (omega arith) (may_vote 4) (may_vote 5)

-- Two of three entries were committed, and both come back.
restart_redelivers_example :
    ((init_state disk (persist disk 2 stored none).1).0 ≡ done (kept 2 stored))
    × ((follow_commit 2 (started timer 7 [] "a" (kept 2 stored))).0 ≡ done tt)
    × ((follow_commit 2 (started timer 7 [] "a" (kept 2 stored))).1.delivered ≡ log_of_two)
restart_redelivers_example =
    restart_redelivers timer 7 [] "a" disk 2 2 stored none disk-IsReliable (omega arith)
      (omega arith)

-- Six entries, five of them committed, and a request that ends at the third.
abbrev far : Raft ℕ
far = node (state_of follower 2 none 5 (log_of_three ++ log_of_three))

abbrev cutting : AppendEntriesRequest ℕ
cutting = request 2 2 1 (entry 30 2 ∷ []) 3

cutting-Takes : Takes cutting far.state
unfolding is_stale write_log
cutting-Takes = record {
  fresh = refl;
  place = (1, entry 20 1, refl, refl, refl);
  commit = λ h. absurd (omega (arith, h));
}

cutting_due : (append_entries 1 timer cutting far.shared).1.persist_timeout < 6000
unfolding append_entries follow_commit
cutting_due = omega arith

truncated_panics_example :
    let answered = append_entries 1 timer cutting far.shared in
    (answered.0 ≡ done (record { node_id = 1; term = 2; success = true }))
    × (suc (length answered.1.log) ≡ 3)
    × ((try_persist_state disk 6000 6000 (record far { shared = answered.1 }, none)).0 ≡ panic)
truncated_panics_example =
    truncated_panics disk far timer cutting 6000 6000 none (omega arith) cutting-Takes (omega arith)
      (omega arith) cutting_due
