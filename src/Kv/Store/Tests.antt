-- ===== src/Kv/Store/Tests.antt =====
-- A store whose consensus layer leads, or led.
use quaso.Prelude.{◌≡◌, refl, true, false, none, some, List, [], ◌∷◌, ◌++◌, arith}
use quaso.Prelude.Exec.{done}
use quaso.HashMap as Map
use quaso.Raft.Data.{leader, LogEntry, AppendEntriesRequest}
use quaso.Raft.Append.{is_stale, write_log, append_entries}
use quaso.Raft.Append.Outcome.{Takes}
use quaso.Raft.Node.{Raft}
use quaso.Raft.Samples.{timer, volatile}
use quaso.Text.{is_whitespace, trim, split}
use quaso.Kv.Command.{Operation, set, delete, parse_command}
use quaso.Kv.Store.{storage_get, answer, apply, handle_cmd, deliver_all, handle_client}
use quaso.Kv.Store.Apply.{last_write, or_else, deliver_all-last_write}
use quaso.Kv.Store.Clients.{leader_write, acknowledged_write_dropped}

abbrev command : Operation
command = set "k" "v"

abbrev leading : Raft Operation
leading = record {
  node_id = 1;
  connections = "b" ∷ [];
  listener_addr = "a";
  stopped = false;
  shared = record {
    state = record {
      persistent_state = record {
        node_term = 2;
        voted_for = none;
        log = record { value = set "j" "1"; term = 1 } ∷ [];
      };
      volatile_state = volatile leader 0;
      recieved_leader_heartbeat = false;
    };
    delivered = [];
  };
  is_leader = true;
}

-- Of the leader of term 3, which has the same entry.
abbrev newer : AppendEntriesRequest Operation
newer = record {
  term = 3;
  leader_id = 2;
  prev_log_index = 1;
  prev_log_term = 1;
  entries = [];
  leader_commit = 0;
}

newer-Takes : Takes newer leading.state
unfolding is_stale write_log
newer-Takes = record {
  fresh = refl;
  place = (0, record { value = set "j" "1"; term = 1 }, refl, refl, refl);
  commit = λ h. absurd (omega arith);
}

acknowledged_write_dropped_example :
    let r' = record leading { shared = (append_entries 1 timer newer leading.shared).1 } in
    (answer [] r'.is_leader command [] ≡ (done "OK.", command ∷ [])) × (handle_cmd command r' ≡ r')
acknowledged_write_dropped_example =
    acknowledged_write_dropped [] [] command tt leading timer newer (omega arith) newer-Takes refl

write_goes_to_the_log :
    (answer [] true command [] ≡ (done "OK.", command ∷ []))
    × ((handle_cmd command leading).log ≡ leading.log ++ record { value = command; term = 2 } ∷ [])
    × ((handle_cmd command leading).commited_index ≡ 0)
write_goes_to_the_log = leader_write [] [] command tt leading refl refl

abbrev delivered : List (LogEntry Operation)
delivered =
    record { value = set "k" "v"; term = 1 }
    ∷ record { value = set "j" "w"; term = 1 }
    ∷ record { value = delete "k"; term = 2 }
    ∷ []

deliver_all-last_write_example :
    storage_get "k" (deliver_all delivered [])
    ≡ or_else (last_write "k" delivered) (storage_get "k" [])
deliver_all-last_write_example = deliver_all-last_write "k" delivered []

reads : handle_client (deliver_all delivered []) false (some "get j") [] ≡ (done "\"w\"", [])
unfolding handle_client answer deliver_all apply storage_get parse_command is_whitespace trim split
    Map.get Map.remove Map.insert
reads = refl
