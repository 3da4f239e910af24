-- ===== src/Raft/Data.antt =====
-- The data of raft/src/server/log.rs, state.rs and rpc.rs, and the operations of `State`.
-- An `Instant` is a number of milliseconds. `T` is the application's entry type.
use quaso.Prelude.{ℕ, ◌+◌, String, Bool, false, Option, List, [], ◌∷◌, u32_add}
use quaso.HashMap.{HashMap}
use quaso.HashMap as Map

-- `NodeTerm` is u32, `NodeId` u64 and `LogIndex` usize.
abbrev pub NodeTerm : Type 0
NodeTerm = ℕ

abbrev pub NodeId : Type 0
NodeId = ℕ

abbrev pub LogIndex : Type 0
LogIndex = ℕ

abbrev pub Instant : Type 0
Instant = ℕ

pub data NodeRole : Type 0 where
  follower candidate leader : NodeRole

-- `==` on roles
abbrev pub role_eq : NodeRole → NodeRole → Bool
role_eq follower follower = Bool.true
role_eq candidate candidate = Bool.true
role_eq leader leader = Bool.true
role_eq _ _ = false

pub record LogEntry (T : Type 0) : Type 0 where
  pub value : T
  pub term : NodeTerm

pub record PersistentState (T : Type 0) : Type 0 where
  pub node_term : NodeTerm
  pub voted_for : Option NodeId
  pub log : List (LogEntry T)

pub record VolatileState : Type 0 where
  pub node_type : NodeRole
  pub votes_recieved : List NodeId
  pub commited_index : LogIndex
  pub last_applied : LogIndex
  pub next_index : HashMap LogIndex
  pub match_index : HashMap LogIndex
  pub heartbeat_timeout : Instant
  pub election_timeout : Instant
  pub persist_timeout : Instant

pub record State (T : Type 0) : Type 0 where
  pub persistent_state : PersistentState T
  pub open persistent_state use *
  pub volatile_state : VolatileState
  pub open volatile_state use *
  pub recieved_leader_heartbeat : Bool

-- One reading of the clock with the two random delays that may be drawn beside it.
pub record Timer : Type 0 where
  pub now : Instant
  pub heartbeat_time : ℕ
  pub election_time : ℕ

-- The `for conn in conns` of `VolatileState::init_state`.
unfoldable pub zero_indices : List String → HashMap LogIndex → HashMap LogIndex
zero_indices [] m = m
zero_indices (conn ∷ conns) m = zero_indices conns (Map.insert conn 0 m)

unfoldable pub init_volatile : Timer → List String → VolatileState
unfolding zero_indices
init_volatile t conns = record {
  node_type = follower;
  votes_recieved = [];
  commited_index = 0;
  last_applied = 0;
  next_index = zero_indices conns [];
  match_index = zero_indices conns [];
  heartbeat_timeout = t.now + t.heartbeat_time;
  election_timeout = t.now + t.election_time;
  persist_timeout = t.now + 5000;
}

unfoldable pub reset_heartbeat_timeout : Timer → VolatileState → VolatileState
reset_heartbeat_timeout t v = record v { heartbeat_timeout = t.now + t.heartbeat_time }

unfoldable pub reset_election_timeout : Timer → VolatileState → VolatileState
reset_election_timeout t v = record v { election_timeout = t.now + t.election_time }

-- The source writes `election_timeout` here.
unfoldable pub reset_persist_timeout : Timer → VolatileState → VolatileState
reset_persist_timeout t v = record v { election_timeout = t.now + 2000 }

module _ {T : Type 0} where
  -- `State::transition_to_term` and `State::transition`; their log lines are left out.
  unfoldable pub transition_to_term : NodeRole → NodeTerm → State T → State T
  transition_to_term node_type to_term s = record s {
    volatile_state = record s.volatile_state { node_type = node_type };
    persistent_state = record s.persistent_state { node_term = to_term };
  }

  unfoldable pub transition : NodeRole → NodeTerm → State T → State T
  transition node_type term_increase s = record s {
    volatile_state = record s.volatile_state { node_type = node_type };
    persistent_state = record s.persistent_state { node_term = u32_add s.node_term term_increase };
  }

  abbrev pub set_log : List (LogEntry T) → State T → State T
  set_log l s = record s { persistent_state = record s.persistent_state { log = l } }

  abbrev pub set_voted_for : Option NodeId → State T → State T
  set_voted_for v s = record s { persistent_state = record s.persistent_state { voted_for = v } }

  abbrev pub set_commited_index : LogIndex → State T → State T
  set_commited_index i s = record s {
    volatile_state = record s.volatile_state { commited_index = i };
  }

  abbrev pub restart_election_timer : Timer → State T → State T
  restart_election_timer t s = record s {
    volatile_state = reset_election_timeout t s.volatile_state;
  }

  abbrev pub set_leader_heartbeat : Bool → State T → State T
  set_leader_heartbeat b s = record s { recieved_leader_heartbeat = b }

-- What the listener's task is given: the locked state, and the channel to the application, of
-- which the model keeps the entries sent. Its receiver lives as long as the program.
pub record Shared (T : Type 0) : Type 0 where
  pub state : State T
  pub open state use *
  pub delivered : List (LogEntry T)

pub record PingRequest : Type 0 where
  pub term : NodeTerm
  pub node_id : NodeId

pub record PingResponse : Type 0 where
  pub term : NodeTerm
  pub node_id : NodeId

pub record ElectionVoteRequest : Type 0 where
  pub term : NodeTerm
  pub candidate_id : NodeId
  pub last_log_index : LogIndex
  pub last_log_term : NodeTerm

pub record ElectionVoteResponse : Type 0 where
  pub node_id : NodeId
  pub term : NodeTerm
  pub vote_granted : Bool

pub record AppendEntriesRequest (T : Type 0) : Type 0 where
  pub term : NodeTerm
  pub leader_id : NodeId
  pub prev_log_index : LogIndex
  pub prev_log_term : NodeTerm
  pub entries : List (LogEntry T)
  pub leader_commit : LogIndex

pub record AppendEntriesResponse : Type 0 where
  pub node_id : NodeId
  pub term : NodeTerm
  pub success : Bool

pub data RequestPattern (T : Type 0) : Type 0 where
  ping_rpc : PingRequest → RequestPattern T
  append_entries_rpc : AppendEntriesRequest T → RequestPattern T
  request_vote_rpc : ElectionVoteRequest → RequestPattern T
