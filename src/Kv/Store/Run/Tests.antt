-- ===== src/Kv/Store/Run/Tests.antt =====
-- A follower that starts without a log, takes two entries of its leader, one of them committed, and
-- applies that one; a client's command in between is dropped.
use quaso.Prelude.{◌≤◌, ◌≡◌, refl, [], ◌∷◌, arith, length, take, true}
use quaso.Raft.Data.{LogEntry, AppendEntriesRequest, append_entries_rpc, init_volatile}
use quaso.Raft.Samples.{timer}
use quaso.Raft.Node.{Raft, new_from_config, append_entry}
use quaso.Raft.Append.{append_entries, follow_commit}
use quaso.Raft.Deliver.{deliver_range}
use quaso.Raft.Server.{appended, dispatch}
use quaso.Raft.Persist.{fresh_state}
use quaso.Raft.Committed.{receives}
use quaso.Kv.Command.{Operation, set, delete}
use quaso.Kv.Store.{
  KvStore, from_client, from_raft, init_default, deliver_all, handle_cmd, handle_message,
}
use quaso.Kv.Store.Run.{Run, starts, works, takes_command, takes_entry, Run-prefix}

abbrev first : LogEntry Operation
first = record { value = set "k" "v"; term = 1 }

abbrev second : LogEntry Operation
second = record { value = delete "k"; term = 1 }

abbrev sent : AppendEntriesRequest Operation
sent = record {
  term = 1;
  leader_id = 1;
  prev_log_index = 0;
  prev_log_term = 0;
  entries = first ∷ second ∷ [];
  leader_commit = 1;
}

abbrev new_node : Raft Operation
new_node = new_from_config timer 2 ("a" ∷ []) "b" fresh_state

abbrev fresh : KvStore
fresh = record { storage = init_default; raft = new_node }

abbrev told : Raft Operation
told = record new_node { shared = (dispatch 2 timer (append_entries_rpc sent) new_node.shared).1 }

abbrev heard : KvStore
heard = record fresh { raft = told }

abbrev asked : KvStore
asked = handle_message (from_client (set "k" "x")) heard

abbrev applied : KvStore
applied = handle_message (from_raft first) asked

heard-Run : Run heard 0
unfolding new_from_config init_volatile dispatch append_entries follow_commit deliver_range
heard-Run = works fresh 0 told (starts timer 2 ("a" ∷ []) "b" fresh_state) (
    receives new_node timer (append_entries_rpc sent)
      (appended (record { node_id = 2; term = 1; success = true })) refl (omega arith)
      (omega arith, omega arith))

applied-Run : Run applied 1
unfolding new_from_config init_volatile dispatch append_entries follow_commit deliver_range
    handle_message handle_cmd append_entry
applied-Run = takes_entry asked 0 first (takes_command heard 0 (set "k" "x") heard-Run) refl

Run-prefix_example :
    (1 ≤ applied.raft.commited_index)
    × (applied.raft.commited_index ≤ length applied.raft.log)
    × (applied.raft.delivered ≡ take applied.raft.commited_index applied.raft.log)
    × (applied.storage ≡ deliver_all (take 1 applied.raft.log) init_default)
Run-prefix_example = Run-prefix applied 1 applied-Run
