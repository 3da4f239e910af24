-- ===== src/Raft/Node.antt =====
-- `Raft` of raft/src/server/state.rs: a node with its configuration, what it shares with the
-- listener's task, and the flag that the store reads.
use quaso.Prelude.{
  ℕ, ◌+◌, ◌/◌, String, Bool, false, List, [], ◌∷◌, ◌++◌, if◌then◌else◌, length, not,
}
use quaso.Raft.Data.{
  NodeId, NodeTerm, NodeRole, leader, role_eq, LogEntry, PersistentState, State, Shared, Timer,
  init_volatile, set_log,
}
use quaso.Raft.Data as Data
use quaso.Raft.Append.{on_state}

-- The fields of `Config` that the consensus layer reads.
pub record Raft (T : Type 0) : Type 0 where
  pub node_id : NodeId
  pub connections : List String
  pub listener_addr : String
  pub stopped : Bool
  pub shared : Shared T
  pub open shared use *
  pub is_leader : Bool

module _ {T : Type 0} where
  abbrev pub on_node_state : (State T → State T) → Raft T → Raft T
  on_node_state f r = record r { shared = on_state f r.shared }

  -- `Raft::new_from_config`, with the state that was read from the disk.
  unfoldable pub new_from_config :
      Timer → NodeId → List String → String → PersistentState T → Raft T
  new_from_config t node_id connections listener_addr persisted = record {
    node_id = node_id;
    connections = connections;
    listener_addr = listener_addr;
    stopped = false;
    shared = record {
      state = record {
        persistent_state = persisted;
        volatile_state = init_volatile t connections;
        recieved_leader_heartbeat = false;
      };
      delivered = [];
    };
    is_leader = false;
  }

  -- `Raft::transition_to_term` and `Raft::transition_wrapper`.
  unfoldable pub transition_to_term : NodeRole → NodeTerm → Raft T → Raft T
  unfolding Data.transition_to_term
  transition_to_term node_type to_term r =
      on_node_state (Data.transition_to_term node_type to_term)
        (record r { is_leader = role_eq node_type leader })

  unfoldable pub transition_wrapper : NodeRole → NodeTerm → Raft T → Raft T
  unfolding Data.transition
  transition_wrapper node_type term_increase r =
      on_node_state (Data.transition node_type term_increase)
        (record r { is_leader = role_eq node_type leader })

  unfoldable pub append_entry : T → Raft T → Raft T
  append_entry value r =
      if not (role_eq r.node_type leader)
      then r
      else on_node_state (set_log (r.log ++ record { value = value; term = r.node_term } ∷ [])) r

  -- `(conns as f32 / 2.0).floor() + 1.0`: exact while `conns` is below 2 ^ 24.
  unfoldable pub get_quorum_length : Raft T → ℕ
  get_quorum_length r = (length r.connections + 1) / 2 + 1
