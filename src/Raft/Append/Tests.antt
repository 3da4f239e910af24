-- ===== src/Raft/Append/Tests.antt =====
-- `append_entries` on a few nodes.
use quaso.Prelude.{
  ℕ, suc, ◌≤◌, ◌+◌, ◌≡◌, ◌++◌, refl, true, false, none, [], ◌∷◌, arith, inl, length, get_elem?,
  some, ◌≢◌,
}
use quaso.Prelude.Exec.{done, panic}
use quaso.Raft.Data.{follower, Shared}
use quaso.Raft.Deliver.{deliver_range}
use quaso.Raft.Append.{append_response, is_stale, write_log, follow_commit, append_entries}
use quaso.Raft.Append.Merged.{HasMerged, Takes-HasMerged, append_commit_bound}
use quaso.Raft.Append.Outcome.{Takes, success_iff_Takes, panic_iff_Faults, reject_unchanged}
use quaso.Raft.Append.Log.{
  append_inside, term_goes_back, repeat_appends_again, repeat_first_panics, once,
}
use quaso.Raft.Append.Conflict.{conflict_stays}
use quaso.Raft.Data.{AppendEntriesRequest}
use quaso.Raft.Samples.{
  timer, entry, behind, request, third, shared_of, state_of, log_of_two, log_of_three,
}

third-Takes : Takes third behind.state
unfolding is_stale write_log
third-Takes = record {
  fresh = refl;
  place = (1, entry 20 1, refl, refl, refl);
  commit = λ _. omega arith;
}

success_iff_Takes_example :
    (append_entries 7 timer third behind).0
    ≡ done (record { node_id = 7; term = 2; success = true })
success_iff_Takes_example = (success_iff_Takes 7 timer third behind (omega arith)).1 third-Takes

panic_iff_Faults_example : (append_entries 7 timer (request 2 0 0 [] 0) behind).0 ≡ panic
unfolding is_stale
panic_iff_Faults_example =
    (panic_iff_Faults 7 timer (request 2 0 0 [] 0) behind (omega arith)).1
      (record { fresh = refl; why = inl (omega arith, refl) })

reject_unchanged_example :
    append_entries 7 timer (request 2 2 9 [] 0) behind
    ≡ (done (append_response 7 false behind), behind)
unfolding append_entries
reject_unchanged_example =
    reject_unchanged 7 timer (request 2 2 9 [] 0) behind (omega arith)
      {r = append_response 7 false behind} refl refl

Takes-HasMerged_example :
    ((append_entries 7 timer third behind).0
      ≡ done (record { node_id = 7; term = 2; success = true }))
    × HasMerged third behind (append_entries 7 timer third behind).1
Takes-HasMerged_example =
    Takes-HasMerged 7 timer third behind (omega arith) (omega arith) third-Takes

-- A request past the end of the log, whose commit index is past it too.
append_commit_bound_example :
    (append_entries 7 timer (request 2 2 1 [] 9) behind).1.commited_index
    ≤ length (append_entries 7 timer (request 2 2 1 [] 9) behind).1.log
append_commit_bound_example =
    append_commit_bound 7 timer (request 2 2 1 [] 9) behind (omega arith) (omega arith)
      (omega arith) (omega arith)

-- Three entries; the request confirms the first, and brings nothing.
abbrev longer : Shared ℕ
longer = shared_of (state_of follower 2 none 1 log_of_three)

inside-Takes : Takes (request 2 1 1 [] 1) longer.state
unfolding is_stale write_log
inside-Takes = record {
  fresh = refl;
  place = (0, entry 10 1, refl, refl, refl);
  commit = λ h. omega arith;
}

one_entry_short : suc (length (append_entries 7 timer (request 2 1 1 [] 1) longer).1.log) ≡ 0 + 1
one_entry_short =
    append_inside 7 timer (request 2 1 1 [] 1) longer (omega arith) inside-Takes (omega arith)

older_leader_followed :
    ((append_entries 7 timer (request 1 2 1 [] 0) behind).0
      ≡ done (record { node_id = 7; term = 1; success = true }))
    × ((append_entries 7 timer (request 1 2 1 [] 0) behind).1.node_term ≡ 1)
    × ((append_entries 7 timer (request 1 2 1 [] 0) behind).1.voted_for ≡ none)
older_leader_followed =
    term_goes_back 7 timer (request 1 2 1 [] 0) behind (omega arith) (λ e. cc) (omega arith)
      (1, entry 20 1, refl, refl, refl) (λ h. absurd (omega arith))

third_twice :
    (append_entries 7 timer third (once 7 timer third behind)).1.log
    ≡ (log_of_two ++ entry 30 2 ∷ []) ++ entry 30 2 ∷ []
third_twice = repeat_appends_again 7 timer third behind (omega arith) third-Takes refl (omega arith)

abbrev new_node : Shared ℕ
new_node = shared_of (state_of follower 1 none 0 [])

first-Takes : Takes (request 1 0 0 log_of_two 0) new_node.state
unfolding is_stale write_log
first-Takes = record { fresh = refl; place = refl; commit = λ h. absurd (omega arith) }

repeated_first :
    append_entries 7 timer
      (request 1 0 0 log_of_two 0)
      (once 7 timer (request 1 0 0 log_of_two 0) new_node)
    ≡ (panic, once 7 timer (request 1 0 0 log_of_two 0) new_node)
repeated_first =
    repeat_first_panics 7 timer (request 1 0 0 log_of_two 0) new_node (omega arith) first-Takes refl
      refl (omega arith)

-- The third entry is appended, and the second one delivered.
append_third : (append_entries 7 timer third behind).1.log ≡ log_of_three
unfolding append_entries follow_commit deliver_range
append_third = refl

-- The leader of term 3 has other entries after the first.
abbrev other_entries : AppendEntriesRequest ℕ
other_entries = request 3 1 1 (entry 21 3 ∷ entry 31 3 ∷ []) 1

other_entries-Takes : Takes other_entries longer.state
unfolding is_stale write_log
other_entries-Takes = record {
  fresh = refl;
  place = (0, entry 10 1, refl, refl, refl);
  commit = λ h. omega arith;
}

conflict_stays_example :
    ((append_entries 7 timer other_entries longer).0
      ≡ done (record { node_id = 7; term = 3; success = true }))
    × (get_elem? (append_entries 7 timer other_entries longer).1.log 1 ≢ some (entry 21 3))
conflict_stays_example =
    conflict_stays 7 timer other_entries longer 0 other_entries-Takes (omega arith) (omega arith)
      (omega arith) (λ e. ground arith)
