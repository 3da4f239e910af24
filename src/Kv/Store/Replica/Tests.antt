-- ===== src/Kv/Store/Replica/Tests.antt =====
-- A leader of three nodes that commits its log of three operations, with a client's command in
-- between.
use mathlib.Core.List.Perm
use quaso.Prelude.{ℕ, ◌≡◌, ◌≢◌, refl, some, List, [], ◌∷◌, arith, true, false}
use quaso.HashMap as Map
use quaso.Raft.Data.{LogIndex, leader, LogEntry}
use quaso.Raft.Deliver.{deliver_range}
use quaso.Raft.Commit.{maybe_commit_log_entries}
use quaso.Raft.Commit.Frequency.{frequencies, best_of}
use quaso.Raft.Samples.{volatile}
use quaso.Kv.Command.{Operation, set, delete}
use quaso.Kv.Store.{
  KvStore, Message, from_client, from_raft, generic_handler_interface, init_default, deliver_all,
}
use quaso.Kv.Store.Replica.{IsReplica, commit-IsReplica}

abbrev operations : List (LogEntry Operation)
operations =
    record { value = set "k" "v"; term = 1 }
    ∷ record { value = set "j" "w"; term = 1 }
    ∷ record { value = delete "k"; term = 2 }
    ∷ []

abbrev commits : KvStore
commits = record {
  storage = [];
  raft = record {
    node_id = 1;
    connections = "b" ∷ "c" ∷ [];
    listener_addr = "a";
    stopped = false;
    shared = record {
      state = record {
        persistent_state = record { node_term = 2; voted_for = some 1; log = operations };
        volatile_state = volatile leader 0;
        recieved_leader_heartbeat = false;
      };
      delivered = [];
    };
    is_leader = true;
  };
}

abbrev messages : List Message
messages =
    from_raft (record { value = set "k" "v"; term = 1 })
    ∷ from_client (set "k" "x")
    ∷ from_raft (record { value = set "j" "w"; term = 1 })
    ∷ from_raft (record { value = delete "k"; term = 2 })
    ∷ []

abbrev as_it_is : List (LogIndex × ℕ) → List (LogIndex × ℕ)
as_it_is m = m

moves : (maybe_commit_log_entries as_it_is commits.raft).1.commited_index ≢ 0
unfolding maybe_commit_log_entries deliver_range Map.values frequencies best_of
moves = λ e. absurd (omega arith)

delivers : (maybe_commit_log_entries as_it_is commits.raft).1.delivered ≡ operations
unfolding maybe_commit_log_entries deliver_range Map.values frequencies best_of
delivers = refl

starts : IsReplica commits
unfolding init_default deliver_all
starts = record { within = omega arith; same = refl }

commits_all : IsReplica (
    generic_handler_interface messages
      (record commits { raft = (maybe_commit_log_entries as_it_is commits.raft).1 }))
commits_all = commit-IsReplica as_it_is (λ m. Perm.refl m) commits messages starts moves delivers
